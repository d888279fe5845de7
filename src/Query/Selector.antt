-- ===== src/Query/Selector.antt =====
-- packages/query/src/selector.ts: the parser of a selection. Every refusal of it is the one error
-- INVALID_QUERY_SELECTION, here `none`. An `obj` has the prototype Object.prototype.
pub mod Parsed
use api_truth.Prelude.{
  ℕ, Bool, true, false, ◌&&◌, ◌||◌, not, Option, none, some, List, [], ◌∷◌, all, leb, ltb, ◌==◌,
  if◌then◌else◌, length,
}
use api_truth.Prelude.Text.{Str, lit, str_eq}
use api_truth.Prelude.Sets.{has}
use api_truth.Json.{Json, Fields, str, obj, get, keys}
use api_truth.Orchestration.Canonical.{◌>>=◌}
use api_truth.Orchestration.Ordering.Decimal.{value}

pub data QuerySelector : Type 0 where
  environment branch : Str → Option Str → QuerySelector
  revision : Str → QuerySelector

pub record QuerySelection : Type 0 where
  pub tenant_id : Str
  pub repository_id : Str
  pub service_id : Str
  pub selector : QuerySelector

-- [^\u0000-\u001f\u007f]
abbrev is_printable : ℕ → Bool
is_printable c = not (leb c 0x1f) && not (c == 0x7f)

unfoldable pub is_identifier : Str → Bool
is_identifier s = leb 1 (length s) && (leb (length s) 512 && all is_printable s)

abbrev is_digit : ℕ → Bool
is_digit c = leb b'0' c && leb c b'9'

-- [1-9][0-9]{0,18}, at most the largest signed 64-bit integer
unfoldable pub is_version : Str → Bool
unfolding value
is_version [] = false
is_version (c ∷ s) =
    leb b'1' c
    && leb c b'9'
    && (all is_digit s && (leb (length s) 18 && leb (value (c ∷ s)) 9223372036854775807))

-- plainRecord, for the members that are read
plain_record : List Str → Json → Option Fields
unfolding has keys
plain_record fields (obj fs) =
    if length (keys fs) == length fields && all (λ f. has f (keys fs)) fields then some fs else none
plain_record fields _ = none

identifier : Option Json → Option Str
unfolding is_identifier
identifier (some (str s)) = if is_identifier s then some s else none
identifier _ = none

version : Option Json → Option Str
unfolding is_version
version (some (str s)) = if is_version s then some s else none
version _ = none

named_with_version : (Str → Option Str → QuerySelector) → Str → Str → Fields → Option QuerySelector
unfolding plain_record identifier version get
named_with_version make name_key version_key raw = do
  members ← plain_record (lit "kind" ∷ name_key ∷ version_key ∷ []) (obj raw)
  name ← identifier (get name_key members)
  expected ← version (get version_key members)
  some (make name (some expected))

named_without_version : (Str → Option Str → QuerySelector) → Str → Fields → Option QuerySelector
unfolding plain_record identifier get
named_without_version make name_key raw = do
  members ← plain_record (lit "kind" ∷ name_key ∷ []) (obj raw)
  name ← identifier (get name_key members)
  some (make name none)

-- The branches on "environment" and "branch": a name, and a version if its key is there.
named : (Str → Option Str → QuerySelector) → Str → Str → Fields → Option QuerySelector
unfolding named_with_version named_without_version has keys
named make name_key version_key raw =
    if has version_key (keys raw)
    then named_with_version make name_key version_key raw
    else named_without_version make name_key raw

of_revision : Fields → Option QuerySelector
unfolding plain_record identifier has get keys
of_revision raw = do
  members ← plain_record (lit "kind" ∷ lit "revision" ∷ []) (obj raw)
  name ← identifier (get (lit "revision") members)
  some (revision name)

of_kind : Str → Fields → Option QuerySelector
unfolding named of_revision str_eq
of_kind kind raw =
    if str_eq kind (lit "environment")
    then named environment (lit "environment") (lit "expectedCheckpointVersion") raw
    else if str_eq kind (lit "branch")
    then named branch (lit "branch") (lit "expectedPointerVersion") raw
    else if str_eq kind (lit "revision")
    then of_revision raw
    else none

parse_selector : Option Json → Option QuerySelector
unfolding of_kind get
parse_selector (some (obj raw)) = elim (get (lit "kind") raw) [
  | some (str kind) ↦ of_kind kind raw
  | _ ↦ none
]
parse_selector _ = none

-- record.version === "1"
is_one : Option Json → Option (Unit {0})
unfolding str_eq
is_one (some (str s)) = if str_eq s (lit "1") then some tt else none
is_one _ = none

unfoldable pub parse_query_selection : Json → Option QuerySelection
unfolding plain_record is_one identifier parse_selector has get keys
parse_query_selection input = do
  members ←
      plain_record
        (lit "version"
          ∷ lit "tenantId"
          ∷ lit "repositoryId"
          ∷ lit "serviceId"
          ∷ lit "selector"
          ∷ [])
        input
  one ← is_one (get (lit "version") members)
  tenant ← identifier (get (lit "tenantId") members)
  repository ← identifier (get (lit "repositoryId") members)
  service ← identifier (get (lit "serviceId") members)
  selector ← parse_selector (get (lit "selector") members)
  some (record {
    tenant_id = tenant;
    repository_id = repository;
    service_id = service;
    selector = selector;
  })
