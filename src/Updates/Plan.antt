-- ===== src/Updates/Plan.antt =====
-- packages/updates/src/schema.ts and input.ts: the update plan and its semantic check. The
-- plan's shape is in Updates/Shape.
use api_truth.Prelude.{
  ℕ, ◌+◌, Bool, true, false, ◌&&◌, ◌||◌, not, Option, none, some, List, [], ◌∷◌, ◌++◌, map, any,
  if◌then◌else◌, String,
}
use api_truth.Prelude.Text.{Str, lit, str_eq, starts_with}
use api_truth.Json.{Json, Fields, str, arr, obj, field, end, items}
use api_truth.Orchestration.Canonical.{serialize, same_text}
use api_truth.Updates.Utf8.{is_canonical_by, is_canonical_string_set}
use api_truth.Updates.Snapshot.{AnalysisKey}

pub data FallbackReason : Type 0 where
  adapter_incremental_targets_unsupported prior_coverage_incomplete : FallbackReason
  changed_paths_incomplete changed_paths_digest_mismatch changed_path_unindexed : FallbackReason
  dependency_index_incomplete analyzer_changed config_changed ir_changed : FallbackReason
  identity_changed : FallbackReason

-- The position in UPDATE_FALLBACK_REASONS, which is also fallbackReasonRank.
abbrev pub rank : FallbackReason → ℕ
rank adapter_incremental_targets_unsupported = 0
rank prior_coverage_incomplete = 1
rank changed_paths_incomplete = 2
rank changed_paths_digest_mismatch = 3
rank changed_path_unindexed = 4
rank dependency_index_incomplete = 5
rank analyzer_changed = 6
rank config_changed = 7
rank ir_changed = 8
rank identity_changed = 9

abbrev pub reason_name : FallbackReason → Str
reason_name adapter_incremental_targets_unsupported = lit "adapter_incremental_targets_unsupported"
reason_name prior_coverage_incomplete = lit "prior_coverage_incomplete"
reason_name changed_paths_incomplete = lit "changed_paths_incomplete"
reason_name changed_paths_digest_mismatch = lit "changed_paths_digest_mismatch"
reason_name changed_path_unindexed = lit "changed_path_unindexed"
reason_name dependency_index_incomplete = lit "dependency_index_incomplete"
reason_name analyzer_changed = lit "analyzer_changed"
reason_name config_changed = lit "config_changed"
reason_name ir_changed = lit "ir_changed"
reason_name identity_changed = lit "identity_changed"

pub data Action : Type 0 where
  reuse_base_snapshot analyze_full_service : Action

pub record Service : Type 0 where
  pub repository_id : Str
  pub service_id : Str
  pub service_root : Str
  pub base_snapshot_id : Str
  pub base_revision : Str
  pub target_revision : Str
  pub base_source_digest : Str
  pub target_source_digest : Str

-- `fallback_mode`: `extraction_mode` is there, and is "fallback_full_service".
pub record Content : Type 0 where
  pub service : Service
  pub base : AnalysisKey
  pub target : AnalysisKey
  pub changed_paths : List Str
  pub coverage_complete : Bool
  pub affected_endpoint_ids : List Str
  pub action : Action
  pub fallback_mode : Bool
  pub fallback_reasons : List FallbackReason

pub record UpdatePlan : Type 0 where
  pub content : Content
  pub plan_id : Str

abbrev text_field : String → Str → Fields → Fields
text_field k s rest = field (lit k) (str s) rest

-- { analyzer, analyzer_exchange_version }
abbrev pub analyzer_json : AnalysisKey → Json
analyzer_json k = obj (
    field (lit "analyzer")
      (obj (
        text_field "analyzer_id" k.analyzer_id
          (text_field "analyzer_version" k.analyzer_version end)))
      (text_field "analyzer_exchange_version" k.analyzer_exchange_version end))

abbrev pub analysis_json : AnalysisKey → Json
analysis_json k = obj (
    field (lit "analyzer")
      (obj (
        text_field "analyzer_id" k.analyzer_id
          (text_field "analyzer_version" k.analyzer_version end)))
      (text_field "analyzer_exchange_version" k.analyzer_exchange_version (
        text_field "ir_version" k.ir_version (
          text_field "identity_version" k.identity_version (
            text_field "config_version" k.config_version
              (text_field "config_fingerprint" k.config_fingerprint end))))))

unfoldable pub service_json : Service → Json
service_json s = obj (
    text_field "repository_id" s.repository_id (
      text_field "service_id" s.service_id (
        text_field "service_root" s.service_root (
          text_field "base_snapshot_id" s.base_snapshot_id (
            text_field "base_revision" s.base_revision (
              text_field "target_revision" s.target_revision (
                text_field "base_source_digest" s.base_source_digest
                  (text_field "target_source_digest" s.target_source_digest end))))))))

abbrev action_name : Action → Str
action_name reuse_base_snapshot = lit "reuse_base_snapshot"
action_name analyze_full_service = lit "analyze_full_service"

unfoldable pub mode_fields : Bool → Fields → Fields
mode_fields true rest = text_field "extraction_mode" (lit "fallback_full_service") rest
mode_fields false rest = rest

unfoldable pub content_json : Content → Json
unfolding service_json mode_fields items
content_json c = obj (
    text_field "update_plan_version" (lit "1.0.0") (
      field (lit "service") (service_json c.service) (
        field (lit "analysis")
          (obj (
            field (lit "base") (analysis_json c.base)
              (field (lit "target") (analysis_json c.target) end)))
          (field (lit "changed_paths") (arr (items c.changed_paths)) (
            text_field "dependency_coverage"
              (if c.coverage_complete then lit "complete" else lit "incomplete")
              (field (lit "affected_endpoint_ids") (arr (items c.affected_endpoint_ids)) (
                text_field "action" (action_name c.action) (
                  mode_fields c.fallback_mode (
                    field (lit "fallback_reasons")
                      (arr (items (map reason_name c.fallback_reasons))) end)))))))))

-- canonicalJson(a) === canonicalJson(b), of values that serialize
abbrev pub texts_agree : Json → Json → Bool
texts_agree a b = elim (same_text a b) [ some e ↦ e | none ↦ false ]

-- root === "." || path === root || path.startsWith(`${root}/`)
unfoldable pub inside_root : Str → Str → Bool
unfolding str_eq starts_with
inside_root root path =
    str_eq root (lit ".") || (str_eq path root || starts_with (root ++ b'/' ∷ []) path)

pub data PlanIssue : Type 0 where
  changed_paths_order affected_order reasons_order outside_root : PlanIssue
  reuse_mode reuse_reasons reuse_mismatch full_mode full_reason plan_identity : PlanIssue

abbrev pub issue_unless : Bool → PlanIssue → List PlanIssue → List PlanIssue
issue_unless b i rest = if b then rest else i ∷ rest

-- String(reasonRanks.get(reason)): the ranks have one digit
abbrev pub rank_text : FallbackReason → Str
rank_text r = (b'0' + rank r) ∷ []

abbrev pub is_empty {ℓ} : {A : Type ℓ} → List A → Bool
is_empty [] = true
is_empty (x ∷ l) = false

abbrev is_adapter : FallbackReason → Bool
is_adapter adapter_incremental_targets_unsupported = true
is_adapter _ = false

unfoldable pub reuse_agrees : Content → Bool
unfolding str_eq same_text
reuse_agrees c =
    is_empty c.changed_paths
    && (is_empty c.affected_endpoint_ids
        && (c.coverage_complete
            && (str_eq c.service.base_source_digest c.service.target_source_digest
                && texts_agree (analysis_json c.base) (analysis_json c.target))))

unfoldable pub action_issues : Action → Content → List PlanIssue → List PlanIssue
unfolding reuse_agrees
action_issues reuse_base_snapshot c rest = issue_unless (not c.fallback_mode) reuse_mode (
    issue_unless (is_empty c.fallback_reasons) reuse_reasons
      (issue_unless (reuse_agrees c) reuse_mismatch rest))
action_issues analyze_full_service c rest =
    issue_unless c.fallback_mode full_mode
      (issue_unless (any is_adapter c.fallback_reasons) full_reason rest)

unfoldable pub outside_issues : Str → List Str → List PlanIssue → List PlanIssue
unfolding inside_root
outside_issues root [] rest = rest
outside_issues root (p ∷ ps) rest =
    issue_unless (inside_root root p) outside_root (outside_issues root ps rest)

-- `sha256`: the hexadecimal digest of node:crypto.
module _ (sha256 : Str → Str) where
  -- `update-plan-${canonicalSha256Hex(content)}`
  unfoldable pub plan_id_of : Content → Option Str
  unfolding content_json serialize
  plan_id_of c = elim (serialize (content_json c)) [
    | none ↦ none
    | some text ↦ some (lit "update-plan-" ++ sha256 text)
  ]

  unfoldable pub identity_agrees : UpdatePlan → Bool
  unfolding plan_id_of str_eq
  identity_agrees p = elim (plan_id_of p.content) [ none ↦ false | some id ↦ str_eq p.plan_id id ]

  -- validatePlanSemantics
  unfoldable pub validate_plan : UpdatePlan → List PlanIssue
  unfolding action_issues outside_issues identity_agrees is_canonical_by is_canonical_string_set
  validate_plan p =
      issue_unless (is_canonical_string_set p.content.changed_paths) changed_paths_order (
        issue_unless (is_canonical_string_set p.content.affected_endpoint_ids) affected_order (
          outside_issues p.content.service.service_root p.content.changed_paths (
            issue_unless (is_canonical_by rank_text p.content.fallback_reasons) reasons_order (
              action_issues p.content.action p.content
                (issue_unless (identity_agrees p) plan_identity [])))))
