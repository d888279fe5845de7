-- ===== src/Updates/Differences/Compare.antt =====
-- packages/updates/src/differences.ts, compareContractSnapshots: the set of differences. The input is
-- parsed; the result's own check, parseContractDifferenceSet, is a parameter that gives the codes of
-- its issues.
use api_truth.Prelude.{
  refl, sym, ap, ◌∙◌, inl, inr, Bool-cases, Bool, true, false, not, Option, none, some, List, [],
  ◌∷◌, ◌++◌, map, if◌then◌else◌, ◌≡◌, arith,
}
use api_truth.Prelude.Text.{Str, lit}
use api_truth.Prelude.Sorting.{sort}
use api_truth.Json.{Json, str, arr, items}
use api_truth.Updates.Plan.{is_empty}
use api_truth.Updates.Utf8.{utf8_before}
use api_truth.Updates.Snapshot.{ContractSnapshot}
use api_truth.Updates.Ownership.{OwnershipIndex}
use api_truth.Updates.Differences.Facts.{Facts, is_incomplete}
use api_truth.Updates.Differences.Canonical.{canonical_json, array, object}
use api_truth.Updates.Differences.Projection.{with, with_some, or_undefined}
use api_truth.Updates.Differences.Drafts.{
  kind_name, CompatibilityLabel, non_breaking, potentially_breaking, unknown, DifferenceSubject,
  DifferenceDraft,
}
use api_truth.Updates.Differences.ClaimDrafts.{claim_drafts}
use api_truth.Updates.Differences.Checks.{ComparisonIssue, incompatibilities}
use api_truth.Updates.Differences.Snapshots.{
  same_identity_version, all_endpoint_drafts, never_returns,
}
use api_truth.Updates.Differences.Analysis.{schema_drafts, coverage_drafts, all_diagnostic_drafts}

pub data IncompleteReason : Type 0 where
  base_coverage_incomplete target_coverage_incomplete : IncompleteReason
  identity_version_changed : IncompleteReason

pub record ContractDifference : Type 0 where
  pub difference_id : Str
  pub draft : DifferenceDraft

-- comparison_status is "complete" if there is no reason.
pub record ContractDifferenceSet : Type 0 where
  pub difference_set_id : Str
  pub comparison_complete : Bool
  pub incomplete_reason_codes : List IncompleteReason
  pub differences : List ContractDifference

-- `refused`: the set's own check finds issues; `without_result`: the function does not return.
pub data Comparison : Type 0 where
  incompatible : List ComparisonIssue → Comparison
  refused : List Str → Comparison
  without_result : Comparison
  compared : ContractDifferenceSet → Comparison

abbrev reason_if : Bool → IncompleteReason → List IncompleteReason
reason_if b r = if b then r ∷ [] else []

unfoldable pub incomplete_reasons : Facts → Facts → List IncompleteReason
unfolding is_incomplete same_identity_version
incomplete_reasons base target =
    reason_if (is_incomplete base.coverage) base_coverage_incomplete
    ++ (reason_if (is_incomplete target.coverage) target_coverage_incomplete
        ++ reason_if (not (same_identity_version base target)) identity_version_changed)

unfoldable pub claim_drafts_if_comparable : Facts → Facts → List DifferenceDraft
unfolding claim_drafts same_identity_version
claim_drafts_if_comparable base target =
    if same_identity_version base target then claim_drafts base target else []

-- All that is pushed to `drafts`, in order.
unfoldable pub drafts : (ContractSnapshot → OwnershipIndex) → Facts → Facts → List DifferenceDraft
unfolding all_endpoint_drafts schema_drafts claim_drafts_if_comparable coverage_drafts
    all_diagnostic_drafts
drafts build base target =
    all_endpoint_drafts base target
    ++ (schema_drafts base target build
        ++ (claim_drafts_if_comparable base target
            ++ (coverage_drafts base target ++ all_diagnostic_drafts base target)))

subject_json : DifferenceSubject → Json
unfolding object
subject_json s = object (
    with "service_id" (str s.service_id) (
      with_some "endpoint_id" (or_undefined str s.endpoint_id) (
        with_some "component_id" (or_undefined str s.component_id) (
          with_some "affected_endpoint_ids"
            (if is_empty s.affected_endpoint_ids
              then none
              else some (arr (items s.affected_endpoint_ids)))
            (with "fact_kind" (str s.fact_kind) (with "fact_key" (str s.fact_key) []))))))

label_name : CompatibilityLabel → Str
label_name non_breaking = lit "non_breaking"
label_name potentially_breaking = lit "potentially_breaking"
label_name unknown = lit "unknown"

reason_code : IncompleteReason → Str
reason_code base_coverage_incomplete = lit "base_coverage_incomplete"
reason_code target_coverage_incomplete = lit "target_coverage_incomplete"
reason_code identity_version_changed = lit "identity_version_changed"

or_empty : Option Str → Str
or_empty none = []
or_empty (some s) = s

-- The keys by which differences are sorted.
sort_keys : ContractDifference → List Str
unfolding canonical_json kind_name or_empty
sort_keys d =
    let s = (d.draft).subject in
    or_empty s.endpoint_id
    ∷ or_empty s.component_id
    ∷ canonical_json (arr (items s.affected_endpoint_ids))
    ∷ s.fact_kind
    ∷ s.fact_key
    ∷ (kind_name (d.draft).kind).index
    ∷ d.difference_id
    ∷ []

-- The first keys that differ decide.
keys_before : List Str → List Str → Bool
keys_before (a ∷ l) (b ∷ m) =
    let rest = keys_before l m in
    if utf8_before a b then true else if utf8_before b a then false else rest
keys_before l m = false

unfoldable pub sort_differences : List ContractDifference → List ContractDifference
unfolding sort keys_before sort_keys
sort_differences l = sort (λ a b. keys_before (sort_keys a) (sort_keys b)) l

status_text : List IncompleteReason → Str
status_text [] = lit "complete"
status_text (r ∷ l) = lit "incomplete"

side_json : ContractSnapshot → Json
unfolding object
side_json s = object (
    with "snapshot_id" (str s.snapshot_id)
      (with "immutable_revision" (str s.immutable_revision) []))

-- `sha256`: the hexadecimal digest of node:crypto. `build`: buildEndpointOwnershipIndex. `set_codes`:
-- the codes of the issues of parseContractDifferenceSet.
module _ (sha256 : Str → Str) (build : ContractSnapshot → OwnershipIndex) where
  unfoldable pub difference : Facts → Facts → DifferenceDraft → ContractDifference
  unfolding canonical_json object kind_name subject_json
  difference base target d =
      let identity_content = object (
        with "version" (str (lit "1.0.0")) (
          with "service_id" (str (base.contract).service_id) (
            with "base_snapshot_id" (str (base.contract).snapshot_id) (
              with "target_snapshot_id" (str (target.contract).snapshot_id) (
                with "kind" (str (kind_name d.kind).name) (
                  with "subject" (subject_json d.subject)
                    (with_some "before" d.before (with_some "after" d.after [])))))))) in
      record {
        difference_id = lit "difference-" ++ sha256 (canonical_json identity_content);
        draft = d;
      }

  difference_json : ContractDifference → Json
  unfolding object subject_json kind_name label_name
  difference_json d = object (
      with "difference_id" (str d.difference_id) (
        with "kind" (str (kind_name (d.draft).kind).name) (
          with "compatibility" (str (label_name (d.draft).compatibility)) (
            with "subject" (subject_json (d.draft).subject)
              (with_some "before" (d.draft).before (with_some "after" (d.draft).after []))))))

  unfoldable pub difference_set :
      Facts → Facts → List IncompleteReason → List ContractDifference → ContractDifferenceSet
  unfolding canonical_json object array side_json status_text reason_code difference_json
  difference_set base target reasons differences =
      let content = object (
        with "contract_difference_version" (str (lit "1.0.0")) (
          with "service_id" (str (base.contract).service_id) (
            with "base" (side_json base.contract) (
              with "target" (side_json target.contract) (
                with "comparison_status" (str (status_text reasons)) (
                  with "incomplete_reason_codes" (arr (items (map reason_code reasons)))
                    (with "differences" (array (map difference_json differences)) []))))))) in
      record {
        difference_set_id = lit "difference-set-" ++ sha256 (canonical_json content);
        comparison_complete = is_empty reasons;
        incomplete_reason_codes = reasons;
        differences = differences;
      }

module _ (sha256 : Str → Str) (build : ContractSnapshot → OwnershipIndex)
    (set_codes : ContractDifferenceSet → List Str) where
  unfoldable pub whole_set : Facts → Facts → ContractDifferenceSet
  unfolding incomplete_reasons drafts sort_differences difference difference_set
  whole_set base target =
      difference_set sha256 build base target (incomplete_reasons base target)
        (sort_differences (map (difference sha256 build base target) (drafts build base target)))

  -- The result, if it passes parseContractDifferenceSet.
  unfoldable pub checked : ContractDifferenceSet → Comparison
  checked r = elim (set_codes r) [ [] ↦ compared r | code ∷ codes ↦ refused (code ∷ codes) ]

  unfoldable pub compare_contract_snapshots : Facts → Facts → Comparison
  unfolding incompatibilities never_returns whole_set checked
  compare_contract_snapshots base target = elim (incompatibilities base target) [
    | i ∷ issues ↦ incompatible (i ∷ issues)
    | [] ↦ if never_returns base target then without_result else checked (whole_set base target)
  ]

  checked-compared : (r : ContractDifferenceSet) → set_codes r ≡ [] → checked r ≡ compared r
  unfolding checked
  checked-compared r h = ground (arith, h)

  pub compare_contract_snapshots-compared :
      (base target : Facts)
      → incompatibilities base target ≡ []
      → never_returns base target ≡ false
      → set_codes (whole_set base target) ≡ []
      → compare_contract_snapshots base target ≡ compared (whole_set base target)
  unfolding compare_contract_snapshots
  compare_contract_snapshots-compared base target h k l =
      ground (arith, h, k, checked-compared (whole_set base target) l)

  abbrev result_or : ContractDifferenceSet → Comparison → ContractDifferenceSet
  result_or r (compared s) = s
  result_or r c = r

  checked-same : (r s : ContractDifferenceSet) → checked r ≡ compared s → r ≡ s
  unfolding checked
  checked-same r s h = by_codes (set_codes r) refl
    where
      by_codes : (l : List Str) → set_codes r ≡ l → r ≡ s
      by_codes [] e = ap (result_or r) (sym (checked-compared r e) ∙ h)
      by_codes (c ∷ l) e = ground (arith, e, h)

  -- A result is the whole set.
  pub compared-whole_set :
      (base target : Facts) (r : ContractDifferenceSet)
      → compare_contract_snapshots base target ≡ compared r
      → whole_set base target ≡ r
  unfolding compare_contract_snapshots
  compared-whole_set base target r h = by_issues (incompatibilities base target) refl
    where
      by_issues :
          (l : List ComparisonIssue) → incompatibilities base target ≡ l → whole_set base target ≡ r
      by_issues (i ∷ l) e = ground (arith, e, h)
      by_issues [] e = elim (Bool-cases (never_returns base target)) [
        | inl f ↦ ground (arith, e, f, h)
        | inr f ↦ checked-same (whole_set base target) r (ground (arith, e, f, h))
      ]
