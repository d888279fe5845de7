-- ===== src/Updates/Differences/Checks.antt =====
-- packages/updates/src/differences.ts: what two snapshots must satisfy to be compared.
use api_truth.Prelude.{
  ℕ, suc, Bool, ◌&&◌, ◌||◌, none, some, List, [], ◌∷◌, ◌++◌, all, leb, length, if◌then◌else◌,
}
use api_truth.Prelude.Text.{Str, str_eq}
use api_truth.Prelude.Sets.{has, add, alter, lookup}
use api_truth.Json.{str, arr, items}
use api_truth.Updates.Differences.Facts.{
  RequestBody, Content, Header, Response, Endpoint, Diagnostic, Facts,
}
use api_truth.Updates.Differences.Canonical.{canonical_json, array, canonical_strings, ascii_lower}
use api_truth.Updates.Differences.Projection.{parameter_key, status_key}

pub data Side : Type 0 where
  base target : Side

-- A path of an issue, member by member: numbers are positions in the arrays.
pub data ComparisonIssue : Type 0 where
  duplicate_parameter duplicate_request_body : Side → (endpoint index : ℕ) → ComparisonIssue
  duplicate_content duplicate_header : Side → (endpoint response index : ℕ) → ComparisonIssue
  duplicate_diagnostic : Side → (index : ℕ) → ComparisonIssue
  repository_differs service_differs root_differs : ComparisonIssue
  revision_not_representable : Side → ComparisonIssue

-- if (seen.has(key)) issues.push(issue(index)); seen.add(key), over a list of keys
unfoldable pub repeated : (ℕ → ComparisonIssue) → ℕ → List Str → List Str → List ComparisonIssue
unfolding has add
repeated at index [] seen = []
repeated at index (key ∷ keys) seen =
    let rest = repeated at (suc index) keys (add key seen) in
    if has key seen then at index ∷ rest else rest

keys_by : {A : Type 0} → (A → Str) → List A → List Str
keys_by key [] = []
keys_by key (x ∷ l) = key x ∷ keys_by key l

-- sets.get(key) ?? new Set()
seen_at : Str → List (Str × List Str) → List Str
unfolding lookup
seen_at key sets = elim (lookup key sets) [ none ↦ [] | some seen ↦ seen ]

add_keys : List Str → List Str → List Str
unfolding add
add_keys [] seen = seen
add_keys (key ∷ keys) seen = add_keys keys (add key seen)

-- The responses of one endpoint, with the keys seen before by status.
response_issues :
    Side → ℕ → ℕ → List Response → (contents headers : List (Str × List Str)) → List ComparisonIssue
unfolding repeated keys_by seen_at add_keys alter status_key ascii_lower
response_issues side endpoint index [] contents headers = []
response_issues side endpoint index (r ∷ l) contents headers =
    let key = status_key r.status in
    let content_keys = keys_by (λ (c : Content). c.media_type) r.content in
    let header_keys = keys_by (λ (h : Header). ascii_lower h.name) r.headers in
    repeated (duplicate_content side endpoint index) 0 content_keys (seen_at key contents)
    ++ (repeated (duplicate_header side endpoint index) 0 header_keys (seen_at key headers)
        ++ response_issues side endpoint (suc index) l
            (alter key [] (add_keys content_keys) contents)
            (alter key [] (add_keys header_keys) headers))

endpoint_issues : Side → ℕ → List Endpoint → List ComparisonIssue
unfolding repeated keys_by response_issues parameter_key
endpoint_issues side index [] = []
endpoint_issues side index (e ∷ l) =
    repeated (duplicate_parameter side index) 0 (keys_by parameter_key e.parameters) []
    ++ (repeated (duplicate_request_body side index) 0
          (keys_by (λ (b : RequestBody). b.media_type) e.request_bodies) []
        ++ (response_issues side index 0 e.responses [] [] ++ endpoint_issues side (suc index) l))

unfoldable pub diagnostic_key : Diagnostic → Str
unfolding canonical_json array canonical_strings
diagnostic_key d =
    canonical_json
      (array (str d.code ∷ arr (items (canonical_strings d.affected_endpoint_ids)) ∷ []))

-- duplicateComparisonKeyIssues
unfoldable pub duplicate_comparison_key_issues : Side → Facts → List ComparisonIssue
unfolding endpoint_issues repeated keys_by diagnostic_key
duplicate_comparison_key_issues side snapshot =
    endpoint_issues side 0 snapshot.endpoints
    ++ repeated (duplicate_diagnostic side) 0 (keys_by diagnostic_key snapshot.diagnostics) []

abbrev issue_if_not : Bool → ComparisonIssue → List ComparisonIssue
issue_if_not b i = if b then [] else i ∷ []

unfoldable pub scope_issues : Facts → Facts → List ComparisonIssue
unfolding str_eq
scope_issues b t =
    issue_if_not (str_eq (b.contract).repository_id (t.contract).repository_id) repository_differs
    ++ (issue_if_not (str_eq (b.contract).service_id (t.contract).service_id) service_differs
        ++ issue_if_not (str_eq b.root t.root) root_differs)

is_hexadecimal : ℕ → Bool
is_hexadecimal u =
    leb b'a' u && leb u b'f' || (leb b'A' u && leb u b'F' || leb b'0' u && leb u b'9')

-- immutableRevision, /^[a-fA-F0-9]{12,128}$/
unfoldable pub is_immutable_revision : Str → Bool
unfolding is_hexadecimal
is_immutable_revision s = all is_hexadecimal s && (leb 12 (length s) && leb (length s) 128)

unfoldable pub incompatibilities : Facts → Facts → List ComparisonIssue
unfolding scope_issues duplicate_comparison_key_issues is_immutable_revision
incompatibilities b t =
    scope_issues b t
    ++ (duplicate_comparison_key_issues base b
        ++ (duplicate_comparison_key_issues target t
            ++ (issue_if_not (is_immutable_revision (b.contract).immutable_revision)
                  (revision_not_representable base)
                ++ issue_if_not (is_immutable_revision (t.contract).immutable_revision)
                    (revision_not_representable target))))
