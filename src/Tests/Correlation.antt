-- ===== src/Tests/Correlation.antt =====
-- Runs of correlateMetadataObservation of packages/observations/src/matcher.ts.
use api_truth.Prelude.{◌≤◌, true, ℕ, ◌≡◌, ◌↔◌, refl, some, List, [], ◌∷◌, if◌then◌else◌}
use api_truth.Prelude.Text.{Str, lit, str_eq}
use api_truth.Prelude.Sets.{add}
use api_truth.Json.{Json, Fields, str, number, obj, exotic, field, end}
use api_truth.Observations.Inert.{inert_json}
use api_truth.Observations.Inert.Bounds.{node_count, height, text_bytes, inert_json_bounds}
use api_truth.Observations.Url.{Url, Platform, since_epoch}
use api_truth.Observations.Context.{
  Scope, RoutedEndpoint, ObservationContext, rejected, invalid_observation, confirmed, unresolved,
  unsupported_route_selectors,
}
use api_truth.Observations.Correlation.{correlate_metadata_observation}
use api_truth.Observations.Correlation.Confirmed.{Observed, correlate_metadata_observation-Observed}

abbrev url_at : Str → Url
url_at path = record {
  protocol = lit "https:";
  username = [];
  password = [];
  pathname = path;
  search = [];
  hash = [];
  origin = lit "https://h";
}

-- One address with a path; everything else is taken for the origin.
abbrev platform : Platform
platform = record {
  url_of =
      λ s. some (if str_eq s (lit "https://h/a/7") then url_at (lit "/a/7") else url_at (lit "/"));
  date_parse = λ s. some (since_epoch 0);
}

abbrev scope : Scope
scope = record {
  tenant_id = lit "t";
  service_id = lit "s";
  repository_id = lit "r";
  environment = lit "e";
  snapshot_id = lit "s1";
  revision = lit "c1";
  config_fingerprint = lit "f";
  checkpoint_version = lit "v";
}

abbrev orders : List ℕ → RoutedEndpoint
orders selectors = record {
  endpoint_id = lit "e1";
  method = lit "GET";
  service_id = lit "s";
  normalized_path_shape = lit "/a/{}";
  selectors = selectors;
}

abbrev context : List RoutedEndpoint → ObservationContext
context endpoints = record {
  pin = record { state = lit "resolved_single_revision"; scope = scope };
  attestation = record {
    revision = lit "c1";
    source_id = lit "log";
    source_version = lit "1";
    window_start = lit "2026-01-01T00:00:00Z";
    window_end = lit "2026-01-02T00:00:00.5Z";
  };
  snapshot = record {
    snapshot_id = lit "s1";
    service_id = lit "s";
    service_repository_id = lit "r";
    source_repository_id = lit "r";
    immutable_revision = lit "c1";
    config_fingerprint = lit "f";
    endpoints = endpoints;
  };
  mappings =
      record {
        mapping_id = lit "m1";
        scope = scope;
        public_origin = lit "https://h";
        public_path_template = lit "/a/{id}";
        application_path_template = lit "/a/:id";
        method = lit "GET";
        routing_evidence_ids = lit "x" ∷ [];
      }
      ∷ [];
}

abbrev request_fields : Fields
request_fields = field (lit "url") (str (lit "https://h/a/7")) (
    field (lit "method") (str (lit "GET")) (
      field (lit "statusCode")
        (number (record { text = lit "200"; natural = some 200; finite = true }))
        (field (lit "revision") (str (lit "c1")) end)))

abbrev request : Json
request = obj request_fields

confirmed_test :
    correlate_metadata_observation platform request (context (orders [] ∷ []))
    ≡ confirmed (lit "e1") (lit "m1") (lit "GET") 200
unfolding correlate_metadata_observation add
confirmed_test = refl

selectors_test :
    correlate_metadata_observation platform request (context (orders [] ∷ orders (1 ∷ []) ∷ []))
    ≡ unresolved unsupported_route_selectors
unfolding correlate_metadata_observation add
selectors_test = refl

-- A member that is not inert.
accessor_test :
    correlate_metadata_observation platform (obj (field (lit "x") exotic end)) (context [])
    ≡ rejected invalid_observation
unfolding correlate_metadata_observation
accessor_test = refl

correlate_metadata_observation-Observed_example :
    (correlate_metadata_observation platform request (context (orders [] ∷ []))
      ≡ confirmed (lit "e1") (lit "m1") (lit "GET") 200)
    ↔ ((k : Observed platform (context (orders [] ∷ [])) request) × (confirmed
            ((k.confirms).endpoint).endpoint_id
            ((k.confirms).mapping).mapping_id
            (k.observation).method
            (k.observation).status_code
          ≡ confirmed (lit "e1") (lit "m1") (lit "GET") 200))
correlate_metadata_observation-Observed_example =
    correlate_metadata_observation-Observed platform (context (orders [] ∷ [])) request (lit "e1")
      (lit "m1") (lit "GET") 200

inert_json_bounds_example :
    (request ≡ request)
    × ((node_count request ≤ 512) × ((height request ≤ 7) × (text_bytes request ≤ 65536)))
unfolding inert_json
inert_json_bounds_example = inert_json_bounds request request_fields refl
