-- ===== src/Tests/Observations.antt =====
-- Runs of packages/environment/src/ordering.ts at concrete inputs.
use api_truth.Prelude.{◌≡◌, ◌&&◌, refl, none, some, [], ◌∷◌}
use api_truth.Prelude.Text.{Str, lit, str_eq}
use api_truth.Json.{str}
use api_truth.Orchestration.Canonical.{serialize}
use api_truth.Orchestration.Ordering.{is_canonical_decimal}
use api_truth.Orchestration.Ordering.Decimal.{value}
use api_truth.Environment.Resolution.{Completeness}
use api_truth.Environment.Ordering.{
  ServingState, Observation, state_json, classify_serving_observation,
}
use api_truth.Environment.Ordering.Observations.{expected, classify_serving_observation-eq}

abbrev observed : Str → Observation
observed order = record {
  repository_id = lit "r";
  service_id = lit "s";
  environment = lit "production";
  provider = lit "cluster";
  effective_order = order;
  authority_id = lit "a";
  reference = lit "event-1";
  access_label = lit "internal";
  completeness = Completeness.complete;
  serving_state =
      ServingState.known (record { artifact_id = lit "web"; revision = str (lit "r1") } ∷ []);
  rollback_request_id = none;
}

-- What the state of every one of these observations prints.
abbrev state_text : Str
state_text =
    lit
      "{\"completeness\":\"complete\",\"serving_state\":{\"inventory\":[{\"artifact_id\":\"web\",\"revision\":\"r1\"}],\"status\":\"known\"},\"source_access_label\":\"internal\"}"

classify_serving_observation-eq_example :
    classify_serving_observation (λ text. text) (some (observed (lit "9"))) (observed (lit "10"))
    ≡ some (
        expected
          (value (lit "9"))
          (value (lit "10"))
          (str_eq (lit "event-1") (lit "event-1") && str_eq state_text state_text))
unfolding str_eq is_canonical_decimal state_json serialize
classify_serving_observation-eq_example =
    classify_serving_observation-eq (λ text. text) (observed (lit "9")) (observed (lit "10"))
      state_text state_text refl refl refl refl refl (λ h. h)
