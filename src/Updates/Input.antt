-- ===== src/Updates/Input.antt =====
-- packages/updates/src/input.ts: the check of the planner's input. The snapshot's
-- own check, parseContractSnapshot of packages/ir, is a parameter that gives the codes of its issues;
-- they are none for a valid snapshot.
pub mod Errors
use api_truth.Prelude.{
  map, ℕ, Bool, true, false, ◌&&◌, ◌||◌, not, Option, none, some, List, [], ◌∷◌, all, any, leb,
  ◌==◌, if◌then◌else◌, length,
}
use api_truth.Prelude.Text.{Str, lit, str_eq, after_prefix}
use api_truth.Json.{Json, obj, str, field, end}
use api_truth.Orchestration.Canonical.{same_text}
use api_truth.Updates.Utf8.{is_canonical_string_set}
use api_truth.Updates.Snapshot.{AnalysisKey, ContractSnapshot}
use api_truth.Updates.Plan.{texts_agree, inside_root}
use api_truth.Updates.Shape.{
  is_nonempty, is_revision, is_canonical_sha256, is_project_path, is_analysis_key,
}

pub record Target : Type 0 where
  pub repository_id : Str
  pub service_id : Str
  pub service_root : Str
  pub immutable_revision : Str
  pub source_digest : Str
  pub analysis_key : AnalysisKey

pub record PlanningInput : Type 0 where
  pub base_snapshot : ContractSnapshot
  pub base_analysis_key : AnalysisKey
  pub target : Target
  pub changed_paths : List Str
  pub changed_paths_complete : Bool

-- `type_error`: a TypeError is thrown.
pub data UpdateError : Type 0 where
  invalid_update_input update_scope_mismatch update_analysis_mismatch type_error : UpdateError

pub data Result {ℓ} (A : Type ℓ) : Type ℓ where
  ok : A → Result A
  err : UpdateError → Result A

-- What a snapshot records of its analysis: all but the exchange version.
unfoldable pub recorded_json : AnalysisKey → Json
recorded_json k = obj (
    field (lit "analyzer")
      (obj (
        field (lit "analyzer_id") (str k.analyzer_id)
          (field (lit "analyzer_version") (str k.analyzer_version) end)))
      (field (lit "ir_version") (str k.ir_version) (
        field (lit "identity_version") (str k.identity_version) (
          field (lit "config_version") (str k.config_version)
            (field (lit "config_fingerprint") (str k.config_fingerprint) end)))))

pub data InputIssue : Type 0 where
  noncanonical_order digest_pattern scope_mismatch analysis_mismatch path_outside : InputIssue
  shape_invalid : InputIssue
  nested : Str → InputIssue

abbrev issue_unless : Bool → InputIssue → List InputIssue → List InputIssue
issue_unless b i rest = if b then rest else i ∷ rest

unfoldable pub outside_paths : Str → List Str → List InputIssue
unfolding inside_root
outside_paths root [] = []
outside_paths root (p ∷ ps) = issue_unless (inside_root root p) path_outside (outside_paths root ps)

-- What semanticIssues reports of an input whose snapshot is valid.
unfoldable pub issues_of_valid : PlanningInput → List InputIssue
unfolding is_canonical_sha256 recorded_json outside_paths str_eq same_text
issues_of_valid i =
    issue_unless (is_canonical_sha256 (i.base_snapshot).source_digest) digest_pattern (
      issue_unless (str_eq (i.target).repository_id (i.base_snapshot).repository_id) scope_mismatch
        (issue_unless (str_eq (i.target).service_id (i.base_snapshot).service_id) scope_mismatch (
          issue_unless (str_eq (i.target).service_root (i.base_snapshot).service_root)
            scope_mismatch
            (issue_unless
              (texts_agree (recorded_json (i.base_snapshot).analysis)
                (recorded_json i.base_analysis_key))
              analysis_mismatch (outside_paths (i.target).service_root i.changed_paths)))))

-- The snapshot's own issues, if it has any, or those of an input with a valid snapshot.
unfoldable pub issues_behind : List Str → PlanningInput → List InputIssue
unfolding issues_of_valid
issues_behind [] i = issues_of_valid i
issues_behind (code ∷ codes) i = nested code ∷ map nested codes

-- semanticIssues
unfoldable pub semantic_issues : (ContractSnapshot → List Str) → PlanningInput → List InputIssue
unfolding is_canonical_string_set issues_behind
semantic_issues snapshot_codes i =
    issue_unless (is_canonical_string_set i.changed_paths) noncanonical_order
      (issues_behind (snapshot_codes i.base_snapshot) i)

-- UpdatePlanningInputSchema, less the snapshot's own shape
unfoldable pub has_input_shape : PlanningInput → Bool
unfolding is_analysis_key is_project_path is_revision is_canonical_sha256
has_input_shape i =
    is_analysis_key i.base_analysis_key
    && (all is_nonempty ((i.target).repository_id ∷ (i.target).service_id ∷ [])
        && (is_project_path (i.target).service_root
            && (is_revision (i.target).immutable_revision
                && (is_canonical_sha256 (i.target).source_digest
                    && (is_analysis_key (i.target).analysis_key
                        && all is_project_path i.changed_paths)))))

abbrev pub is_scope : InputIssue → Bool
is_scope scope_mismatch = true
is_scope (nested code) = str_eq code (lit "semantic.scope_mismatch")
is_scope _ = false

abbrev pub is_analysis : InputIssue → Bool
is_analysis analysis_mismatch = true
is_analysis (nested code) = str_eq code (lit "semantic.analysis_mismatch")
is_analysis _ = false

abbrev pub error_of : List InputIssue → UpdateError
error_of issues =
    if any is_scope issues
    then update_scope_mismatch
    else if any is_analysis issues
    then update_analysis_mismatch
    else invalid_update_input

-- The error of the issues, if there are any.
unfoldable pub verdict_of : List InputIssue → Result (Unit {0})
verdict_of [] = ok tt
verdict_of (i ∷ is) = err (error_of (i ∷ is))

-- validateUpdatePlanningInput; an issue of the shape has a code that is neither mismatch.
unfoldable pub validate_planning_input :
    (ContractSnapshot → List Str) → PlanningInput → Result (Unit {0})
unfolding verdict_of semantic_issues has_input_shape
validate_planning_input snapshot_codes i =
    if has_input_shape i
    then verdict_of (semantic_issues snapshot_codes i)
    else verdict_of (shape_invalid ∷ [])
