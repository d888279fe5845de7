-- ===== src/Updates/Planner.antt =====
-- packages/updates/src/planner.ts, createUpdatePlanner, on an input that is parsed.
pub mod Reasons
pub mod Reuse
pub mod Valid
pub mod Affected
pub mod Shaped
pub mod Total
use api_truth.Prelude.{
  ℕ, zero, suc, ◌+◌, Bool, true, false, ◌&&◌, ◌||◌, not, Option, none, some, List, [], ◌∷◌, ◌++◌,
  map, all, any, filter, find, leb, ltb, ◌==◌, if◌then◌else◌, length,
}
use api_truth.Prelude.Text.{Str, lit, str_eq, after_prefix, slice_from, split}
use api_truth.Prelude.Sets.{has, add, add_all, lookup}
use api_truth.Prelude.Sorting.{sort}
use api_truth.Orchestration.Canonical.{same_text}
use api_truth.Json.{Json, obj, str, field, end}
use api_truth.Updates.Utf8.{utf8_before, is_canonical_string_set}
use api_truth.Updates.Snapshot.{AnalysisKey, ContractSnapshot, Evidence, SchemaComponent}
use api_truth.Updates.Ownership.{
  OwnershipRoute, dependency_endpoint, Ownership, OwnershipIndex, owners_of,
}
use api_truth.Updates.Plan.{
  FallbackReason, adapter_incremental_targets_unsupported, prior_coverage_incomplete,
  changed_paths_incomplete, changed_paths_digest_mismatch, changed_path_unindexed,
  dependency_index_incomplete, analyzer_changed, config_changed, ir_changed, identity_changed, rank,
  reuse_base_snapshot, analyze_full_service, Service, Content, UpdatePlan, analyzer_json,
  texts_agree, inside_root, plan_id_of, validate_plan, is_empty,
}
use api_truth.Updates.Shape.{is_update_plan}
use api_truth.Updates.Input.{
  Target, PlanningInput, UpdateError, Result, ok, err, invalid_update_input, type_error,
  validate_planning_input,
}
use api_truth.Updates.Changed.{
  Records, is_normalized_service_path, service_relative_path, gather,
  endpoint_without_source_closure, owned_source_path_is_invalid,
}

-- The comparisons of the two analyses and sources.
pub record Changes : Type 0 where
  pub analyzer : Bool
  pub config : Bool
  pub ir : Bool
  pub identity : Bool
  pub digest_matches : Bool
  pub prior_incomplete : Bool

unfoldable pub changes_of : PlanningInput → Changes
unfolding str_eq same_text
changes_of i = record {
  analyzer =
      not (texts_agree (analyzer_json i.base_analysis_key) (analyzer_json (i.target).analysis_key));
  config =
      not (str_eq (i.base_analysis_key).config_version ((i.target).analysis_key).config_version)
      || not (
          str_eq (i.base_analysis_key).config_fingerprint
            ((i.target).analysis_key).config_fingerprint);
  ir = not (str_eq (i.base_analysis_key).ir_version ((i.target).analysis_key).ir_version);
  identity =
      not
        (str_eq (i.base_analysis_key).identity_version ((i.target).analysis_key).identity_version);
  digest_matches = str_eq (i.base_snapshot).source_digest (i.target).source_digest;
  prior_incomplete = not (i.base_snapshot).coverage_complete;
}

abbrev pub boundary : Changes → Bool
boundary c = c.analyzer || (c.config || (c.ir || c.identity))

abbrev pub may_reuse : PlanningInput → Changes → Bool
may_reuse i c =
    c.digest_matches
    && (not (boundary c)
        && (not c.prior_incomplete && (i.changed_paths_complete && is_empty i.changed_paths)))

abbrev pub reason_if : Bool → FallbackReason → List FallbackReason → List FallbackReason
reason_if b r rest = if b then r ∷ rest else rest

-- The set `fallbackReasons`, in the order of its insertions.
unfoldable pub reasons : PlanningInput → Changes → Bool → Bool → List FallbackReason
reasons i c unindexed incomplete =
    adapter_incremental_targets_unsupported
    ∷ reason_if c.prior_incomplete prior_coverage_incomplete (
        reason_if (not i.changed_paths_complete) changed_paths_incomplete (
          reason_if (i.changed_paths_complete && (not c.digest_matches && is_empty i.changed_paths))
            changed_paths_digest_mismatch
            (reason_if unindexed changed_path_unindexed (
              reason_if incomplete dependency_index_incomplete (
                reason_if c.analyzer analyzer_changed (
                  reason_if c.config config_changed
                    (reason_if c.ir ir_changed (reason_if c.identity identity_changed []))))))))

abbrev pub rank_before : FallbackReason → FallbackReason → Bool
rank_before a b = ltb (rank a) (rank b)

abbrev service_of : PlanningInput → Service
service_of i = record {
  repository_id = (i.target).repository_id;
  service_id = (i.target).service_id;
  service_root = (i.target).service_root;
  base_snapshot_id = (i.base_snapshot).snapshot_id;
  base_revision = (i.base_snapshot).immutable_revision;
  target_revision = (i.target).immutable_revision;
  base_source_digest = (i.base_snapshot).source_digest;
  target_source_digest = (i.target).source_digest;
}

unfoldable pub reuse_content : PlanningInput → Content
reuse_content i = record {
  service = service_of i;
  base = i.base_analysis_key;
  target = (i.target).analysis_key;
  changed_paths = i.changed_paths;
  coverage_complete = true;
  affected_endpoint_ids = [];
  action = reuse_base_snapshot;
  fallback_mode = false;
  fallback_reasons = [];
}

-- `without_source`: the answer of endpointWithoutSourceClosure.
unfoldable pub gathered : OwnershipIndex → PlanningInput → Bool → Records
unfolding gather owned_source_path_is_invalid
gathered index i without_source =
    gather i.base_snapshot index (i.target).service_root i.changed_paths (record {
      affected_endpoint_ids = [];
      indexed = true;
      incomplete = without_source || owned_source_path_is_invalid i.base_snapshot index;
    })

-- The endpoints that are affected, with those of a changed analysis boundary.
unfoldable pub affected : OwnershipIndex → Changes → Records → List Str
unfolding add_all
affected index c r =
    if boundary c
    then add_all index.endpoint_ids r.affected_endpoint_ids
    else r.affected_endpoint_ids

unfoldable pub full_content : OwnershipIndex → PlanningInput → Changes → Records → Content
unfolding affected reasons sort
full_content index i c r = record {
  service = service_of i;
  base = i.base_analysis_key;
  target = (i.target).analysis_key;
  changed_paths = i.changed_paths;
  coverage_complete = not (
      c.prior_incomplete
      || (not i.changed_paths_complete
          || ((not c.digest_matches && is_empty i.changed_paths)
              || (not r.indexed || (r.incomplete || boundary c)))));
  affected_endpoint_ids = sort utf8_before (affected index c r);
  action = analyze_full_service;
  fallback_mode = true;
  fallback_reasons = sort rank_before (reasons i c (not r.indexed) r.incomplete);
}

-- `none`: a TypeError is thrown.
unfoldable pub plan_content : (ContractSnapshot → OwnershipIndex) → PlanningInput → Option Content
unfolding changes_of reuse_content full_content gathered endpoint_without_source_closure
plan_content builder i =
    let c = changes_of i in
    let index = builder i.base_snapshot in
    if may_reuse i c
    then some (reuse_content i)
    else elim (endpoint_without_source_closure i.base_snapshot index) [
      | none ↦ none
      | some without_source ↦ some (full_content index i c (gathered index i without_source))
    ]

module _ (sha256 : Str → Str) (snapshot_codes : ContractSnapshot → List Str) where
  -- The plan with its id, if it passes its own check: parseUpdatePlan.
  unfoldable pub finish : Content → Result UpdatePlan
  unfolding plan_id_of validate_plan is_update_plan
  finish content = elim (plan_id_of sha256 content) [
    | none ↦ err invalid_update_input
    | some id ↦
        let plan : UpdatePlan = record { content = content; plan_id = id } in
        if is_update_plan plan && is_empty (validate_plan sha256 plan)
        then ok plan
        else err invalid_update_input
  ]

  -- The plan of a valid input.
  unfoldable pub plan_valid :
      (ContractSnapshot → OwnershipIndex) → PlanningInput → Result UpdatePlan
  unfolding finish plan_content
  plan_valid builder i = elim (plan_content builder i) [
    | none ↦ err type_error
    | some content ↦ finish content
  ]

  -- createUpdatePlanner(builder)
  unfoldable pub create_update_planner :
      (ContractSnapshot → OwnershipIndex) → PlanningInput → Result UpdatePlan
  unfolding plan_valid validate_planning_input
  create_update_planner builder i = elim (validate_planning_input snapshot_codes i) [
    | err e ↦ err e
    | ok valid ↦ plan_valid builder i
  ]
