-- ===== src/Updates/Differences/Endpoints.antt =====
-- packages/updates/src/differences.ts: the projection of a whole endpoint and of its security, and
-- the identity of its route.
use api_truth.Prelude.{none, some, List, [], ◌∷◌, ◌++◌, map, if◌then◌else◌}
use api_truth.Prelude.Text.{Str}
use api_truth.Prelude.Sets.{alter, lookup}
use api_truth.Prelude.Sorting.{sort}
use api_truth.Json.{Json, str, arr, items}
use api_truth.Updates.Utf8.{utf8_before}
use api_truth.Updates.Plan.{is_empty}
use api_truth.Updates.Differences.Facts.{
  Parameter, RequestBody, Requirement, EndpointIdentity, Endpoint, Facts,
}
use api_truth.Updates.Differences.Canonical.{
  canonical_json, put_all, sorted_entries, values, unique_sorted, canonical_strings, array, object,
}
use api_truth.Updates.Differences.Projection.{
  with, with_some, or_undefined, parameter_key, parameter_projection, body_projection,
  response_groups, response_projection,
}

-- scopesByScheme, filled requirement by requirement
scopes_by_scheme : List Requirement → List (Str × List Str) → List (Str × List Str)
unfolding alter
scopes_by_scheme [] m = m
scopes_by_scheme (r ∷ l) m =
    scopes_by_scheme l (alter r.scheme [] (λ (scopes : List Str). scopes ++ r.scopes) m)

requirement_json : Str × List Str → Json
unfolding object canonical_strings
requirement_json (scheme, scopes) =
    object (with "scheme" (str scheme) (with "scopes" (arr (items (canonical_strings scopes))) []))

alternative_json : List Requirement → Json
unfolding object array scopes_by_scheme requirement_json sorted_entries
alternative_json requirements = object (
    with "requirements"
      (array (map requirement_json (sorted_entries (scopes_by_scheme requirements [])))) [])

schemes : List (List Requirement) → List Str
schemes [] = []
schemes (alternative ∷ l) = map (λ (r : Requirement). r.scheme) alternative ++ schemes l

definitions : List Str → List (Str × Json) → List (Str × Json)
unfolding lookup
definitions [] facts = []
definitions (name ∷ names) facts = elim (lookup name facts) [
  | none ↦ definitions names facts
  | some definition ↦ (name, definition) ∷ definitions names facts
]

unfoldable pub security_projection : Endpoint → Facts → Json
unfolding object array unique_sorted canonical_json alternative_json schemes definitions
    canonical_strings
security_projection e snapshot =
    let found =
      definitions (canonical_strings (schemes e.alternatives)) snapshot.security_schemes in
    object (
      with_some "state" (or_undefined str e.security_state) (
        with "alternatives"
          (array (unique_sorted canonical_json (map alternative_json e.alternatives)))
          (with_some "scheme_definitions" (if is_empty found then none else some (object found))
            [])))

identity_json : EndpointIdentity → Json
unfolding object
identity_json i = object (
    with "identity_version" (str i.identity_version) (
      with "route_key" (str i.route_key) (
        with "service_id" (str i.service_id) (
          with "method" (str i.method) (
            with "normalized_path_shape" (str i.normalized_path_shape)
              (with "selectors" i.selectors []))))))

unfoldable pub endpoint_projection : Endpoint → Facts → Json
unfolding object array identity_json security_projection sort sorted_entries values parameter_key
    parameter_projection body_projection response_groups response_projection
endpoint_projection e snapshot = object (
    with "endpoint_id" (str e.endpoint_id) (
      with "identity" (identity_json e.identity) (
        with "method" (str (e.identity).method) (
          with "application_path" (str e.application_path) (
            with "parameters"
              (array (
                map parameter_projection (
                  sort (λ (a b : Parameter). utf8_before (parameter_key a) (parameter_key b))
                    e.parameters)))
              (with "request_bodies"
                (array (
                  map body_projection (
                    sort (λ (a b : RequestBody). utf8_before a.media_type b.media_type)
                      e.request_bodies)))
                (with "responses"
                  (array (map response_projection (values (sorted_entries (response_groups e)))))
                  (with "security" (security_projection e snapshot) []))))))))

unfoldable pub route_identity_key : Endpoint → Str
unfolding canonical_json object
route_identity_key e = canonical_json (
    object (
      with "route_key" (str (e.identity).route_key) (
        with "service_id" (str (e.identity).service_id) (
          with "method" (str (e.identity).method) (
            with "normalized_path_shape" (str (e.identity).normalized_path_shape)
              (with "selectors" (e.identity).selectors []))))))

-- new Map(endpoints.map((endpoint) => [endpoint.endpoint_id, endpoint]))
unfoldable pub endpoints_by_id : List Endpoint → List (Str × Endpoint)
unfolding put_all
endpoints_by_id l = put_all (λ (e : Endpoint). e.endpoint_id) l []
