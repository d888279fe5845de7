-- ===== src/Updates/Differences/Snapshots.antt =====
-- packages/updates/src/differences.ts, compareContractSnapshots: the drafts for the endpoints of two
-- snapshots that can be compared.
use api_truth.Prelude.{
  true, false, ◌&&◌, any, Bool, not, Option, none, some, List, [], ◌∷◌, ◌++◌, if◌then◌else◌,
}
use api_truth.Prelude.Text.{Str, lit, str_eq}
use api_truth.Prelude.Sets.{lookup}
use api_truth.Json.{str, arr, items}
use api_truth.Updates.Differences.Facts.{Endpoint, Facts, is_incomplete}
use api_truth.Updates.Differences.Canonical.{canonical_json, array}
use api_truth.Updates.Differences.Endpoints.{
  endpoints_by_id, endpoint_projection, route_identity_key,
}
use api_truth.Updates.Differences.Drafts.{
  endpoint_added, endpoint_removed, endpoint_absence_unconfirmed,
  endpoint_path_parameter_names_changed, analysis_identity_changed, non_breaking,
  potentially_breaking, unknown, DifferenceSubject, DifferenceDraft,
}
use api_truth.Updates.Differences.Members.{each_key, both_keys, endpoint_member_drafts}
use api_truth.Updates.Differences.ClaimDrafts.{draft}
use api_truth.Updates.Differences.Paths.{path_parameter_names}

endpoint_subject : Str → Str → DifferenceSubject
unfolding canonical_json array
endpoint_subject service_id endpoint_id = record {
  service_id = service_id;
  endpoint_id = some endpoint_id;
  component_id = none;
  affected_endpoint_ids = [];
  fact_kind = lit "endpoint";
  fact_key = canonical_json (array (str (lit "endpoint") ∷ str endpoint_id ∷ []));
}

unfoldable pub analysis_subject : Str → Str → DifferenceSubject
unfolding canonical_json array
analysis_subject service_id fact_kind = record {
  service_id = service_id;
  endpoint_id = none;
  component_id = none;
  affected_endpoint_ids = [];
  fact_kind = fact_kind;
  fact_key = canonical_json (array (str fact_kind ∷ []));
}

unfoldable pub path_names : Endpoint → List Str
unfolding path_parameter_names
path_names e = elim (path_parameter_names e.application_path) [ none ↦ [] | some names ↦ names ]

unfoldable pub has_names : Endpoint → Bool
unfolding path_parameter_names
has_names e = elim (path_parameter_names e.application_path) [ none ↦ false | some names ↦ true ]

module _ (base target : Facts) where
  added_endpoint : Str → Endpoint → DifferenceDraft
  unfolding draft endpoint_subject endpoint_projection
  added_endpoint id after =
      draft endpoint_added non_breaking (endpoint_subject (base.contract).service_id id) none
        (some (endpoint_projection after target))

  removed_endpoint : Str → Endpoint → DifferenceDraft
  unfolding draft endpoint_subject endpoint_projection is_incomplete
  removed_endpoint id before =
      let partial = is_incomplete target.coverage in
      draft (if partial then endpoint_absence_unconfirmed else endpoint_removed)
        (if partial then unknown else potentially_breaking)
        (endpoint_subject (base.contract).service_id id) (some (endpoint_projection before base))
        none

  -- Where there are no names, the comparison gives no result: `loops_at` comes first.
  unfoldable pub path_names_drafts : Str → Endpoint → Endpoint → List DifferenceDraft
  unfolding path_names canonical_json str_eq draft endpoint_subject
  path_names_drafts id before after =
      let old = arr (items (path_names before)) in
      let new = arr (items (path_names after)) in
      if str_eq (canonical_json old) (canonical_json new)
      then []
      else draft endpoint_path_parameter_names_changed potentially_breaking
          (endpoint_subject (base.contract).service_id id) (some old) (some new)
        ∷ []

  -- One endpoint id's round.
  unfoldable pub endpoint_drafts : Str → Option Endpoint → Option Endpoint → List DifferenceDraft
  unfolding added_endpoint removed_endpoint path_names_drafts endpoint_member_drafts str_eq
      route_identity_key is_incomplete
  endpoint_drafts id none none = []
  endpoint_drafts id none (some after) = added_endpoint id after ∷ []
  endpoint_drafts id (some before) none = removed_endpoint id before ∷ []
  endpoint_drafts id (some before) (some after) =
      if not (str_eq (route_identity_key before) (route_identity_key after))
      then added_endpoint id after ∷ removed_endpoint id before ∷ []
      else path_names_drafts id before after
        ++ endpoint_member_drafts (base.contract).service_id before after base target
            (is_incomplete target.coverage)

  -- One endpoint id's round does not end.
  loops_at : Option Endpoint → Option Endpoint → Bool
  unfolding has_names str_eq route_identity_key
  loops_at (some before) (some after) =
      str_eq (route_identity_key before) (route_identity_key after)
      && not (has_names before && has_names after)
  loops_at before after = false

  identity_changed : DifferenceDraft
  unfolding draft analysis_subject
  identity_changed =
      draft analysis_identity_changed unknown
        (analysis_subject (base.contract).service_id (lit "identity")) none none

  -- base.identity_version === target.identity_version
  unfoldable pub same_identity_version : Bool
  unfolding str_eq
  same_identity_version = str_eq base.identity_version target.identity_version

  unfoldable pub all_endpoint_drafts : List DifferenceDraft
  unfolding endpoint_drafts each_key both_keys lookup endpoints_by_id identity_changed
      same_identity_version
  all_endpoint_drafts =
      if same_identity_version
      then each_key
          (λ id.
            endpoint_drafts id (lookup id (endpoints_by_id base.endpoints))
              (lookup id (endpoints_by_id target.endpoints)))
          (both_keys (endpoints_by_id base.endpoints) (endpoints_by_id target.endpoints))
      else identity_changed ∷ []

  unfoldable pub never_returns : Bool
  unfolding loops_at both_keys lookup endpoints_by_id same_identity_version
  never_returns =
      same_identity_version
      && any
          (λ id.
            loops_at (lookup id (endpoints_by_id base.endpoints))
              (lookup id (endpoints_by_id target.endpoints)))
          (both_keys (endpoints_by_id base.endpoints) (endpoints_by_id target.endpoints))
