-- ===== src/Issues.antt =====
-- packages/orchestration/src/errors.ts and packages/updates/src/errors.ts: the issues that an error
-- carries, with every part of a caller's input taken out of them. The two files differ in their sets
-- of segments and codes.
pub mod Safe
use api_truth.Prelude.{
  ℕ, Bool, true, false, ◌||◌, Option, none, some, List, [], ◌∷◌, ◌++◌, map, ◌==◌, if◌then◌else◌,
}
use api_truth.Prelude.Text.{Str, lit, str_eq, split}
use api_truth.Prelude.Sets.{has}
use api_truth.Json.{Json, Fields, str, obj, get}
use api_truth.Orchestration.Ordering.{is_canonical_decimal}

pub record Issue : Type 0 where
  pub path : Str
  pub code : Str

-- parts.join("/")
unfoldable pub join_path : List Str → Str
join_path [] = []
join_path (x ∷ []) = x
join_path (x ∷ y ∷ xs) = x ++ b'/' ∷ join_path (y ∷ xs)

module _ (safe_segments safe_codes : List Str) where
  unfoldable pub is_safe_segment : Str → Bool
  unfolding is_canonical_decimal has
  is_safe_segment s = is_canonical_decimal s || has s safe_segments

  unfoldable pub sanitize_segment : Str → Str
  unfolding is_safe_segment
  sanitize_segment s = if is_safe_segment s then s else lit "*"

  -- The segments behind the leading slash, of a path longer than that.
  unfoldable pub sanitize_issue_path : Str → Str
  unfolding sanitize_segment join_path split
  sanitize_issue_path [] = lit "/"
  sanitize_issue_path (c ∷ []) = lit "/"
  sanitize_issue_path (c ∷ d ∷ s) =
      if c == b'/' then b'/' ∷ join_path (map sanitize_segment (split b'/' (d ∷ s))) else lit "/"

  unfoldable pub sanitize_issue_code : Str → Str
  unfolding has
  sanitize_issue_code code = if has code safe_codes then code else lit "validation.invalid"

  issue_path : Option Json → Str
  unfolding sanitize_issue_path
  issue_path (some (str p)) = sanitize_issue_path p
  issue_path _ = lit "/"

  issue_code : Option Json → Str
  unfolding sanitize_issue_code
  issue_code (some (str code)) = sanitize_issue_code code
  issue_code _ = lit "validation.invalid"

  -- One issue of the error; what is no object with data members has neither a path nor a code.
  unfoldable pub sanitize_issue : Json → Issue
  unfolding issue_path issue_code get
  sanitize_issue (obj fs) = record {
    path = issue_path (get (lit "path") fs);
    code = issue_code (get (lit "code") fs);
  }
  sanitize_issue _ = record { path = lit "/"; code = lit "validation.invalid" }

abbrev pub orchestration_segments : List Str
orchestration_segments =
    lit "adapterId"
    ∷ lit "allowedEventTypes"
    ∷ lit "allowedRepositories"
    ∷ lit "allowedServices"
    ∷ lit "attemptCount"
    ∷ lit "capabilities"
    ∷ lit "checkpointVersion"
    ∷ lit "configuration"
    ∷ lit "deploymentAuthorityGrants"
    ∷ lit "document"
    ∷ lit "environment"
    ∷ lit "event"
    ∷ lit "event_type"
    ∷ lit "fingerprint"
    ∷ lit "instanceId"
    ∷ lit "maxAttempts"
    ∷ lit "payload"
    ∷ lit "principalId"
    ∷ lit "producer"
    ∷ lit "producerId"
    ∷ lit "repository_id"
    ∷ lit "repositoryId"
    ∷ lit "safeErrorCode"
    ∷ lit "service_ids"
    ∷ lit "serviceId"
    ∷ lit "source"
    ∷ lit "subjects"
    ∷ lit "tenantId"
    ∷ lit "workerId"
    ∷ []

abbrev pub orchestration_codes : List Str
orchestration_codes =
    lit "shape.additionalProperties"
    ∷ lit "shape.anyOf"
    ∷ lit "shape.const"
    ∷ lit "shape.enum"
    ∷ lit "shape.format"
    ∷ lit "shape.invalid_json_value"
    ∷ lit "shape.maxItems"
    ∷ lit "shape.maxLength"
    ∷ lit "shape.minItems"
    ∷ lit "shape.minimum"
    ∷ lit "shape.minLength"
    ∷ lit "shape.oneOf"
    ∷ lit "shape.pattern"
    ∷ lit "shape.required"
    ∷ lit "shape.type"
    ∷ lit "shape.uniqueItems"
    ∷ lit "semantic.noncanonical_order"
    ∷ lit "semantic.scope_mismatch"
    ∷ lit "validation.invalid"
    ∷ []

abbrev pub update_segments : List Str
update_segments =
    lit "action"
    ∷ lit "affected_endpoint_ids"
    ∷ lit "after"
    ∷ lit "analysis"
    ∷ lit "analysis_key"
    ∷ lit "analyzed_roots"
    ∷ lit "analyzer_result"
    ∷ lit "analyzer"
    ∷ lit "analyzer_exchange_version"
    ∷ lit "analyzer_id"
    ∷ lit "analyzer_version"
    ∷ lit "application_path"
    ∷ lit "base"
    ∷ lit "base_analysis_key"
    ∷ lit "base_revision"
    ∷ lit "base_snapshot"
    ∷ lit "base_snapshot_id"
    ∷ lit "base_source_digest"
    ∷ lit "before"
    ∷ lit "changed_paths"
    ∷ lit "changed_paths_complete"
    ∷ lit "claims"
    ∷ lit "code"
    ∷ lit "comparison_status"
    ∷ lit "component_id"
    ∷ lit "condition"
    ∷ lit "config"
    ∷ lit "config_fingerprint"
    ∷ lit "config_version"
    ∷ lit "content"
    ∷ lit "contract_changes_output_version"
    ∷ lit "contract_difference_version"
    ∷ lit "coverage"
    ∷ lit "coverage_status"
    ∷ lit "created_at"
    ∷ lit "dependencies"
    ∷ lit "dependency_coverage"
    ∷ lit "diagnostics"
    ∷ lit "difference_id"
    ∷ lit "difference_set_id"
    ∷ lit "differences"
    ∷ lit "editorial_reviews"
    ∷ lit "endpoint_id"
    ∷ lit "endpoints"
    ∷ lit "evidence"
    ∷ lit "exchange_version"
    ∷ lit "execution_policy"
    ∷ lit "export_eligibility"
    ∷ lit "extraction_mode"
    ∷ lit "fact_key"
    ∷ lit "fact_kind"
    ∷ lit "fallback_reasons"
    ∷ lit "headers"
    ∷ lit "identity"
    ∷ lit "identity_version"
    ∷ lit "immutable_revision"
    ∷ lit "in"
    ∷ lit "incomplete_reason_codes"
    ∷ lit "ir_version"
    ∷ lit "encoding"
    ∷ lit "explode"
    ∷ lit "style"
    ∷ lit "content_type"
    ∷ lit "kind"
    ∷ lit "limits"
    ∷ lit "name"
    ∷ lit "parameters"
    ∷ lit "plan"
    ∷ lit "plan_id"
    ∷ lit "predicate"
    ∷ lit "prior_dependencies"
    ∷ lit "properties"
    ∷ lit "repository_id"
    ∷ lit "request"
    ∷ lit "request_bodies"
    ∷ lit "request_id"
    ∷ lit "resolution_inputs"
    ∷ lit "responses"
    ∷ lit "schema"
    ∷ lit "schema_id"
    ∷ lit "schemas"
    ∷ lit "security"
    ∷ lit "service"
    ∷ lit "service_id"
    ∷ lit "root"
    ∷ lit "service_root"
    ∷ lit "severity"
    ∷ lit "snapshot_id"
    ∷ lit "source"
    ∷ lit "source_digest"
    ∷ lit "status"
    ∷ lit "subject"
    ∷ lit "target"
    ∷ lit "target_snapshot"
    ∷ lit "target_revision"
    ∷ lit "target_source_digest"
    ∷ lit "update_plan_version"
    ∷ lit "value"
    ∷ lit "verification"
    ∷ []

abbrev pub update_codes : List Str
update_codes =
    lit "shape.additionalProperties"
    ∷ lit "shape.anyOf"
    ∷ lit "shape.const"
    ∷ lit "shape.enum"
    ∷ lit "shape.format"
    ∷ lit "shape.invalid_json_value"
    ∷ lit "shape.maximum"
    ∷ lit "shape.maxItems"
    ∷ lit "shape.maxLength"
    ∷ lit "shape.minItems"
    ∷ lit "shape.minimum"
    ∷ lit "shape.minLength"
    ∷ lit "shape.minProperties"
    ∷ lit "shape.oneOf"
    ∷ lit "shape.pattern"
    ∷ lit "shape.required"
    ∷ lit "shape.type"
    ∷ lit "shape.uniqueItems"
    ∷ lit "semantic.action_mode_mismatch"
    ∷ lit "semantic.analysis_mismatch"
    ∷ lit "semantic.basis_mismatch"
    ∷ lit "semantic.conflicting_artifact_mapping"
    ∷ lit "semantic.conflicting_claims"
    ∷ lit "semantic.cross_repository_reference"
    ∷ lit "semantic.cross_service_reference"
    ∷ lit "semantic.dangling_reference"
    ∷ lit "semantic.duplicate_comparison_key"
    ∷ lit "semantic.duplicate_id"
    ∷ lit "semantic.environment_mismatch"
    ∷ lit "semantic.fact_key_mismatch"
    ∷ lit "semantic.identity_mismatch"
    ∷ lit "semantic.incomplete_coverage_without_diagnostic"
    ∷ lit "semantic.incomplete_absence"
    ∷ lit "semantic.incomplete_reason_mismatch"
    ∷ lit "semantic.inconsistent_completeness"
    ∷ lit "semantic.inconsistent_coverage"
    ∷ lit "semantic.ineligible_evidence"
    ∷ lit "semantic.intended_branch_mismatch"
    ∷ lit "semantic.invalid_api_schema"
    ∷ lit "semantic.invalid_path_syntax"
    ∷ lit "semantic.invalid_form_encoding"
    ∷ lit "semantic.unsupported_version_field"
    ∷ lit "semantic.invalid_subject"
    ∷ lit "semantic.missing_fact_key"
    ∷ lit "semantic.nested_snapshot_mismatch"
    ∷ lit "semantic.noncanonical_order"
    ∷ lit "semantic.path_outside_service_root"
    ∷ lit "semantic.reuse_mismatch"
    ∷ lit "semantic.route_identity_collision"
    ∷ lit "semantic.scope_mismatch"
    ∷ lit "semantic.unchanged_condition_group"
    ∷ lit "semantic.unrelated_evidence"
    ∷ lit "semantic.unsafe_fact_projection"
    ∷ []
