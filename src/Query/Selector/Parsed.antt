-- ===== src/Query/Selector/Parsed.antt =====
-- What is parsed is valid, and what is valid is parsed from its JSON.
use api_truth.Prelude.{
  ◌≡◌, refl, Bool, true, ◌&&◌, Option, none, some, List, [], ◌∷◌, arith, String, subst,
}
use api_truth.Prelude.Text.{Str, lit}
use api_truth.Json.{Json, Fields, str, obj, field, end, get}
use api_truth.Orchestration.Canonical.{◌>>=◌}
use api_truth.Query.Selector.{
  QuerySelector, environment, branch, revision, QuerySelection, is_identifier, is_version,
  plain_record, identifier, version, named_with_version, named_without_version, named, of_revision,
  of_kind, parse_selector, is_one, parse_query_selection,
}

abbrev valid_version : Option Str → Bool
valid_version none = true
valid_version (some v) = is_version v

abbrev pub valid_selector : QuerySelector → Bool
valid_selector (environment name v) = is_identifier name && valid_version v
valid_selector (branch name v) = is_identifier name && valid_version v
valid_selector (revision name) = is_identifier name

-- The members of a selection are within the bounds of the source's patterns.
unfoldable pub valid_selection : QuerySelection → Bool
valid_selection s =
    is_identifier s.tenant_id
    && (is_identifier s.repository_id && (is_identifier s.service_id && valid_selector s.selector))

abbrev text : String → Str → Fields → Fields
text k v rest = field (lit k) (str v) rest

abbrev version_field : String → Option Str → Fields
version_field k none = end
version_field k (some v) = text k v end

abbrev pub selector_json : QuerySelector → Json
selector_json (environment name v) = obj (
    text "kind" (lit "environment")
      (text "environment" name (version_field "expectedCheckpointVersion" v)))
selector_json (branch name v) =
    obj (text "kind" (lit "branch") (text "branch" name (version_field "expectedPointerVersion" v)))
selector_json (revision name) = obj (text "kind" (lit "revision") (text "revision" name end))

abbrev pub selection_json : QuerySelection → Json
selection_json s = obj (
    text "version" (lit "1") (
      text "tenantId" s.tenant_id (
        text "repositoryId" s.repository_id
          (text "serviceId" s.service_id (field (lit "selector") (selector_json s.selector) end)))))

parse_selector-json :
    (s : QuerySelector) → valid_selector s ≡ true → parse_selector (some (selector_json s)) ≡ some s
unfolding parse_selector
parse_selector-json (environment name none) h = ground (arith, h)
parse_selector-json (environment name (some v)) h = ground (arith, h)
parse_selector-json (branch name none) h = ground (arith, h)
parse_selector-json (branch name (some v)) h = ground (arith, h)
parse_selector-json (revision name) h = ground (arith, h)

-- A selection within the bounds is parsed from its JSON.
pub parse_query_selection-selection_json :
    (s : QuerySelection)
    → valid_selection s ≡ true
    → parse_query_selection (selection_json s) ≡ some s
unfolding parse_query_selection valid_selection
parse_query_selection-selection_json s h = ground (arith, h, parse_selector-json s.selector)

-- What holds of every result of the rest holds of the chain's.
bind_all :
    {A B : Type 0} (P : B → Type 0) (o : Option A) (next : A → Option B)
    → ((a : A) → o ≡ some a → (b : B) → next a ≡ some b → P b)
    → (b : B) → (o >>= next) ≡ some b
    → P b
bind_all P none next h b e = cc
bind_all P (some a) next h b e = h a refl b e

some_all : {B : Type 0} (P : B → Type 0) (a b : B) → P a → some a ≡ some b → P b
some_all P a b p e = subst P (cc) p

identifier-valid : (o : Option Json) (s : Str) → identifier o ≡ some s → is_identifier s ≡ true
unfolding identifier
identifier-valid o s h = ground arith

version-valid : (o : Option Json) (s : Str) → version o ≡ some s → is_version s ≡ true
unfolding version
version-valid o s h = ground arith

abbrev IsValidSelector : QuerySelector → Type 0
IsValidSelector q = valid_selector q ≡ true

-- The constructors that carry a name and a version.
abbrev Carries : (Str → Option Str → QuerySelector) → Type 0
Carries make =
    (name : Str) (v : Option Str)
    → valid_selector (make name v) ≡ (is_identifier name && valid_version v)

named_with_version-valid :
    (make : Str → Option Str → QuerySelector) (name_key version_key : Str) (raw : Fields)
    → Carries make
    → (q : QuerySelector) → named_with_version make name_key version_key raw ≡ some q
    → IsValidSelector q
unfolding named_with_version
named_with_version-valid make name_key version_key raw carries =
    bind_all IsValidSelector (plain_record (lit "kind" ∷ name_key ∷ version_key ∷ []) (obj raw)) _
      (λ members _. bind_all IsValidSelector (identifier (get name_key members)) _ (λ name n.
        bind_all IsValidSelector (version (get version_key members)) _ (λ expected v q.
          some_all IsValidSelector (make name (some expected)) q (
            rw (carries name (some expected)) (
              rw
                (
                  identifier-valid (get name_key members) name n,
                  version-valid (get version_key members) expected v,
                )
                refl)))))

named_without_version-valid :
    (make : Str → Option Str → QuerySelector) (name_key : Str) (raw : Fields)
    → Carries make
    → (q : QuerySelector) → named_without_version make name_key raw ≡ some q
    → IsValidSelector q
unfolding named_without_version
named_without_version-valid make name_key raw carries =
    bind_all IsValidSelector (plain_record (lit "kind" ∷ name_key ∷ []) (obj raw)) _ (λ members _.
      bind_all IsValidSelector (identifier (get name_key members)) _ (λ name n q.
        some_all IsValidSelector (make name none) q
          (rw (carries name none) (rw (identifier-valid (get name_key members) name n) refl))))

named-valid :
    (make : Str → Option Str → QuerySelector) (name_key version_key : Str) (raw : Fields)
    → Carries make
    → (q : QuerySelector) → named make name_key version_key raw ≡ some q
    → IsValidSelector q
unfolding named
named-valid make name_key version_key raw carries q h = ground (
  arith,
  named_with_version-valid make name_key version_key raw carries q,
  named_without_version-valid make name_key raw carries q,
)

of_revision-valid :
    (raw : Fields) (q : QuerySelector) → of_revision raw ≡ some q → IsValidSelector q
unfolding of_revision
of_revision-valid raw =
    bind_all IsValidSelector (plain_record (lit "kind" ∷ lit "revision" ∷ []) (obj raw)) _
      (λ members _.
        bind_all IsValidSelector (identifier (get (lit "revision") members)) _ (λ name n q.
          some_all IsValidSelector (revision name) q
            (identifier-valid (get (lit "revision") members) name n)))

of_kind-valid :
    (kind : Str) (raw : Fields) (q : QuerySelector) → of_kind kind raw ≡ some q → IsValidSelector q
unfolding of_kind
of_kind-valid kind raw q h = ground (
  arith,
  named-valid environment (lit "environment") (lit "expectedCheckpointVersion") raw (λ name v. refl)
      q,
  named-valid branch (lit "branch") (lit "expectedPointerVersion") raw (λ name v. refl) q,
  of_revision-valid raw q,
)

kind-valid :
    (o : Option Json) (raw : Fields) (q : QuerySelector)
    → (elim o [ some (str kind) ↦ of_kind kind raw | _ ↦ none ]) ≡ some q
    → IsValidSelector q
kind-valid none raw q h = cc
kind-valid (some (str kind)) raw q h = of_kind-valid kind raw q h
kind-valid (some _) raw q h = cc

parse_selector-valid :
    (o : Option Json) (q : QuerySelector) → parse_selector o ≡ some q → IsValidSelector q
unfolding parse_selector
parse_selector-valid none q h = cc
parse_selector-valid (some (obj raw)) q h = kind-valid (get (lit "kind") raw) raw q h
parse_selector-valid (some _) q h = cc

abbrev selection_keys : List Str
selection_keys =
    lit "version" ∷ lit "tenantId" ∷ lit "repositoryId" ∷ lit "serviceId" ∷ lit "selector" ∷ []

abbrev IsValid : QuerySelection → Type 0
IsValid s = valid_selection s ≡ true

-- Whatever is parsed is within the bounds.
pub parse_query_selection-valid :
    (input : Json) (s : QuerySelection)
    → parse_query_selection input ≡ some s
    → valid_selection s ≡ true
unfolding parse_query_selection valid_selection
parse_query_selection-valid input =
    bind_all IsValid (plain_record selection_keys input) _ (λ members _.
      bind_all IsValid (is_one (get (lit "version") members)) _ (λ one _.
        bind_all IsValid (identifier (get (lit "tenantId") members)) _ (λ tenant t.
          bind_all IsValid (identifier (get (lit "repositoryId") members)) _ (λ repository r.
            bind_all IsValid (identifier (get (lit "serviceId") members)) _ (λ service v.
              bind_all IsValid (parse_selector (get (lit "selector") members)) _ (λ selector e s.
                some_all IsValid
                  (record {
                    tenant_id = tenant;
                    repository_id = repository;
                    service_id = service;
                    selector = selector;
                  })
                  s
                  (rw
                    (
                      identifier-valid (get (lit "tenantId") members) tenant t,
                      identifier-valid (get (lit "repositoryId") members) repository r,
                      identifier-valid (get (lit "serviceId") members) service v,
                      parse_selector-valid (get (lit "selector") members) selector e,
                    )
                    refl)))))))
