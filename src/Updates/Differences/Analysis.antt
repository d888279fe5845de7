-- ===== src/Updates/Differences/Analysis.antt =====
-- packages/updates/src/differences.ts, compareContractSnapshots: the drafts for schemas, coverage and
-- diagnostics.
use api_truth.Prelude.{Option, none, some, List, [], ◌∷◌, ◌++◌, if◌then◌else◌}
use api_truth.Prelude.Text.{Str, lit, str_eq}
use api_truth.Prelude.Sets.{lookup}
use api_truth.Json.{Json, str, arr, items}
use api_truth.Updates.Snapshot.{ContractSnapshot}
use api_truth.Updates.Ownership.{OwnershipIndex, owners_of}
use api_truth.Updates.Differences.Facts.{
  Coverage, complete, incomplete, Diagnostic, Facts, is_incomplete,
}
use api_truth.Updates.Differences.Canonical.{
  canonical_json, put_all, canonical_strings, array, object, canonical_schema,
}
use api_truth.Updates.Differences.Projection.{with}
use api_truth.Updates.Differences.Drafts.{
  schema_added, schema_removed, schema_changed, analysis_coverage_changed,
  analysis_diagnostic_added, analysis_diagnostic_resolved, non_breaking, potentially_breaking,
  unknown, DifferenceSubject, DifferenceDraft,
}
use api_truth.Updates.Differences.Members.{FactKind, all_fact_drafts, each_key, both_keys}
use api_truth.Updates.Differences.ClaimDrafts.{draft}
use api_truth.Updates.Differences.Snapshots.{analysis_subject}
use api_truth.Updates.Differences.Checks.{diagnostic_key}

coverage_projection : Coverage → Json
unfolding object
coverage_projection complete = object (with "status" (str (lit "complete")) [])
coverage_projection (incomplete reason) =
    object (with "status" (str (lit "incomplete")) (with "reason" (str reason) []))

unfoldable pub diagnostic_projection : Diagnostic → Json
unfolding object canonical_strings
diagnostic_projection d = object (
    with "code" (str d.code) (
      with "severity" (str d.severity) (
        with "affected_endpoint_ids" (arr (items (canonical_strings d.affected_endpoint_ids))) [])))

-- base.schemas and target.schemas, as facts with their ids
schema_projection : Str × Json → Json
unfolding object canonical_schema
schema_projection (schema_id, schema) =
    object (with "schema_id" (str schema_id) (with "schema" (canonical_schema schema) []))

unfoldable pub with_ids : List (Str × Json) → List (Str × (Str × Json))
with_ids [] = []
with_ids ((id, schema) ∷ l) = (id, (id, schema)) ∷ with_ids l

module _ (base target : Facts) where
  unfoldable pub coverage_drafts : List DifferenceDraft
  unfolding coverage_projection canonical_json str_eq draft analysis_subject
  coverage_drafts =
      let old = coverage_projection base.coverage in
      let new = coverage_projection target.coverage in
      if str_eq (canonical_json old) (canonical_json new)
      then []
      else draft analysis_coverage_changed unknown
          (analysis_subject (base.contract).service_id (lit "coverage")) (some old) (some new)
        ∷ []

  diagnostic_subject : Diagnostic → DifferenceSubject
  unfolding diagnostic_key canonical_json array canonical_strings
  diagnostic_subject d = record {
    service_id = (base.contract).service_id;
    endpoint_id = none;
    component_id = none;
    affected_endpoint_ids = canonical_strings d.affected_endpoint_ids;
    fact_kind = lit "diagnostic";
    fact_key = canonical_json (
        array (
          str (lit "diagnostic")
          ∷ str d.code
          ∷ arr (items (canonical_strings d.affected_endpoint_ids))
          ∷ []));
  }

  diagnostic_added : (sample new : Diagnostic) → DifferenceDraft
  unfolding draft diagnostic_subject diagnostic_projection
  diagnostic_added sample new =
      draft analysis_diagnostic_added unknown (diagnostic_subject sample) none
        (some (diagnostic_projection new))

  diagnostic_resolved : Diagnostic → DifferenceDraft
  unfolding draft diagnostic_subject diagnostic_projection
  diagnostic_resolved old =
      draft analysis_diagnostic_resolved unknown (diagnostic_subject old)
        (some (diagnostic_projection old)) none

  -- One diagnostic key's round.
  unfoldable pub diagnostic_drafts : Option Diagnostic → Option Diagnostic → List DifferenceDraft
  unfolding diagnostic_added diagnostic_resolved diagnostic_projection canonical_json str_eq
  diagnostic_drafts none none = []
  diagnostic_drafts none (some new) = diagnostic_added new new ∷ []
  diagnostic_drafts (some old) none = diagnostic_resolved old ∷ []
  diagnostic_drafts (some old) (some new) =
      if str_eq (canonical_json (diagnostic_projection old))
        (canonical_json (diagnostic_projection new))
      then []
      else diagnostic_added old new ∷ diagnostic_resolved old ∷ []

  unfoldable pub all_diagnostic_drafts : List DifferenceDraft
  unfolding diagnostic_drafts each_key both_keys put_all lookup diagnostic_key
  all_diagnostic_drafts =
      let old = put_all diagnostic_key base.diagnostics [] in
      let new = put_all diagnostic_key target.diagnostics [] in
      each_key (λ key. diagnostic_drafts (lookup key old) (lookup key new)) (both_keys old new)

  -- `build`: buildEndpointOwnershipIndex.
  module _ (build : ContractSnapshot → OwnershipIndex) where
    schema_subject : Str → DifferenceSubject
    unfolding owners_of canonical_strings canonical_json array
    schema_subject schema_id = record {
      service_id = (base.contract).service_id;
      endpoint_id = none;
      component_id = some schema_id;
      affected_endpoint_ids = canonical_strings (
          owners_of (build base.contract).schema_owners schema_id
          ++ owners_of (build target.contract).schema_owners schema_id);
      fact_kind = lit "schema";
      fact_key = canonical_json (array (str (lit "schema") ∷ str schema_id ∷ []));
    }

    unfoldable pub schema_facts : FactKind (Str × Json)
    unfolding schema_subject schema_projection
    schema_facts = record {
      subject = λ key s. schema_subject key;
      projection = schema_projection;
      added = schema_added;
      removed = schema_removed;
      changed = schema_changed;
      added_label = λ s. non_breaking;
      changed_label = λ s t. potentially_breaking;
    }

    unfoldable pub schema_drafts : List DifferenceDraft
    unfolding all_fact_drafts schema_facts with_ids is_incomplete
    schema_drafts =
        all_fact_drafts schema_facts (is_incomplete target.coverage) (with_ids base.schemas)
          (with_ids target.schemas)
