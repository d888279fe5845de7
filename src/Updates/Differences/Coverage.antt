-- ===== src/Updates/Differences/Coverage.antt =====
-- packages/updates/src/differences.ts: the coverage of the target decides whether a fact that is gone
-- is reported as removed.
use api_truth.Prelude.{
  Bool, true, ◌≡◌, refl, Option, none, some, List, [], ◌∷◌, map, all, arith, inl, inr, Bool-cases,
}
use api_truth.Prelude.Text.{Str, str_eq}
use api_truth.Prelude.Sets.{lookup}
use api_truth.Prelude.Sorting.{insert, sort}
use api_truth.Updates.Snapshot.{ContractSnapshot}
use api_truth.Updates.Ownership.{OwnershipIndex}
use api_truth.Updates.Differences.Facts.{Endpoint, Diagnostic, Facts, is_incomplete}
use api_truth.Updates.Differences.Canonical.{canonical_json, put_all}
use api_truth.Updates.Differences.Endpoints.{endpoints_by_id, route_identity_key}
use api_truth.Updates.Differences.Drafts.{DifferenceDraft}
use api_truth.Updates.Differences.Members.{both_keys}
use api_truth.Updates.Differences.ClaimDrafts.{
  group_claims, claims_at, group_drafts, claim_drafts, discontinuous_endpoint_ids,
}
use api_truth.Updates.Differences.Checks.{diagnostic_key}
use api_truth.Updates.Differences.Snapshots.{
  path_names_drafts, endpoint_drafts, same_identity_version, all_endpoint_drafts,
}
use api_truth.Updates.Differences.Analysis.{
  with_ids, diagnostic_projection, schema_facts, schema_drafts, coverage_drafts, diagnostic_drafts,
  all_diagnostic_drafts,
}
use api_truth.Updates.Differences.Compare.{
  claim_drafts_if_comparable, drafts, ContractDifference, ContractDifferenceSet, compared,
  sort_differences, difference, difference_set, compare_contract_snapshots, compared-whole_set,
  whole_set,
}
use api_truth.Updates.Differences.Absence.{
  is_justified, AllJustified, append-AllJustified, each_key-AllJustified,
  all_fact_drafts-AllJustified, endpoint_member_drafts-AllJustified, group_drafts-AllJustified,
}

module _ (base target : Facts) where
  abbrev Covered : List DifferenceDraft → Type 0
  Covered l = AllJustified (is_incomplete target.coverage) l

  path_names_drafts-AllJustified :
      (id : Str) (e f : Endpoint) → Covered (path_names_drafts base target id e f)
  unfolding path_names_drafts
  path_names_drafts-AllJustified id e f = record { holds = ground arith }

  endpoint_drafts-AllJustified :
      (id : Str) (o n : Option Endpoint) → Covered (endpoint_drafts base target id o n)
  unfolding endpoint_drafts
  endpoint_drafts-AllJustified id none none = record { holds = refl }
  endpoint_drafts-AllJustified id none (some n) = record { holds = refl }
  endpoint_drafts-AllJustified id (some o) none = record {
    holds = elim (Bool-cases (is_incomplete target.coverage)) [
      | inl e ↦ rw e refl
      | inr e ↦ rw e refl
    ];
  }
  endpoint_drafts-AllJustified id (some o) (some n) =
      elim (Bool-cases (str_eq (route_identity_key o) (route_identity_key n))) [
        | inl e ↦ rw e (
            append-AllJustified (path_names_drafts-AllJustified id o n)
              (endpoint_member_drafts-AllJustified (base.contract).service_id o n base target))
        | inr d ↦ rw d (record {
          holds = elim (Bool-cases (is_incomplete target.coverage)) [
            | inl e ↦ rw e refl
            | inr e ↦ rw e refl
          ];
        })
      ]

  coverage_drafts-AllJustified : Covered (coverage_drafts base target)
  unfolding coverage_drafts
  coverage_drafts-AllJustified = record { holds = ground arith }

  diagnostic_drafts-AllJustified :
      (o n : Option Diagnostic) → Covered (diagnostic_drafts base target o n)
  unfolding diagnostic_drafts
  diagnostic_drafts-AllJustified none none = record { holds = refl }
  diagnostic_drafts-AllJustified none (some n) = record { holds = refl }
  diagnostic_drafts-AllJustified (some o) none = record { holds = refl }
  diagnostic_drafts-AllJustified (some o) (some n) =
      elim (Bool-cases (
        str_eq (canonical_json (diagnostic_projection o))
          (canonical_json (diagnostic_projection n)))) [
            | inl e ↦ rw e (record { holds = refl })
            | inr e ↦ rw e (record { holds = refl })
          ]

  all_endpoint_drafts-AllJustified : Covered (all_endpoint_drafts base target)
  unfolding all_endpoint_drafts
  all_endpoint_drafts-AllJustified =
      let old = endpoints_by_id base.endpoints in
      let new = endpoints_by_id target.endpoints in
      elim (Bool-cases (same_identity_version base target)) [
        | inl e ↦ rw e (
            each_key-AllJustified
              (λ id. endpoint_drafts base target id (lookup id old) (lookup id new))
              (λ id. endpoint_drafts-AllJustified id (lookup id old) (lookup id new))
              (both_keys old new))
        | inr e ↦ rw e (record { holds = refl })
      ]

  claim_drafts-AllJustified : Covered (claim_drafts_if_comparable base target)
  unfolding claim_drafts_if_comparable claim_drafts
  claim_drafts-AllJustified =
      let ids =
        discontinuous_endpoint_ids (endpoints_by_id base.endpoints)
          (endpoints_by_id target.endpoints) in
      let old = group_claims ids "base" base.claims [] in
      let new = group_claims ids "target" target.claims [] in
      elim (Bool-cases (same_identity_version base target)) [
        | inl e ↦ rw e (
            each_key-AllJustified
              (λ key.
                group_drafts (is_incomplete target.coverage) (claims_at key old)
                  (claims_at key new))
              (λ key. group_drafts-AllJustified (claims_at key old) (claims_at key new))
              (both_keys old new))
        | inr e ↦ rw e (record { holds = refl })
      ]

  all_diagnostic_drafts-AllJustified : Covered (all_diagnostic_drafts base target)
  unfolding all_diagnostic_drafts
  all_diagnostic_drafts-AllJustified =
      let old = put_all diagnostic_key base.diagnostics [] in
      let new = put_all diagnostic_key target.diagnostics [] in
      each_key-AllJustified (λ key. diagnostic_drafts base target (lookup key old) (lookup key new))
        (λ key. diagnostic_drafts-AllJustified (lookup key old) (lookup key new))
        (both_keys old new)

  schema_drafts-AllJustified :
      (build : ContractSnapshot → OwnershipIndex) → Covered (schema_drafts base target build)
  unfolding schema_drafts schema_facts
  schema_drafts-AllJustified build =
      all_fact_drafts-AllJustified (schema_facts base target build) (with_ids base.schemas)
        (with_ids target.schemas) refl refl refl

  drafts-AllJustified :
      (build : ContractSnapshot → OwnershipIndex) → Covered (drafts build base target)
  unfolding drafts
  drafts-AllJustified build = append-AllJustified all_endpoint_drafts-AllJustified (
      append-AllJustified (schema_drafts-AllJustified build) (
        append-AllJustified claim_drafts-AllJustified
          (append-AllJustified coverage_drafts-AllJustified all_diagnostic_drafts-AllJustified)))

-- Every difference of a sorted list of differences that were made of drafts.
all_drafts : (DifferenceDraft → Bool) → List ContractDifference → Bool
all_drafts p l = all (λ (d : ContractDifference). p d.draft) l

all-insert :
    (p : DifferenceDraft → Bool) (before : ContractDifference → ContractDifference → Bool)
    (d : ContractDifference) (l : List ContractDifference)
    → p d.draft ≡ true
    → all_drafts p l ≡ true
    → all_drafts p (insert before d l) ≡ true
unfolding insert all_drafts
all-insert p before d [] h k = ground (arith, h)
all-insert p before d (e ∷ l) h k = ground (arith, h, k, all-insert p before d l)

all-sort :
    (p : DifferenceDraft → Bool) (before : ContractDifference → ContractDifference → Bool)
    (l : List ContractDifference)
    → all_drafts p l ≡ true
    → all_drafts p (sort before l) ≡ true
unfolding sort all_drafts
all-sort p before [] h = refl
all-sort p before (d ∷ l) h =
    all-insert p before d (sort before l) (ground (arith, h))
      (all-sort p before l (ground (arith, h)))

all-map :
    (p : DifferenceDraft → Bool) (f : DifferenceDraft → ContractDifference)
    → ((d : DifferenceDraft) → (f d).draft ≡ d)
    → (l : List DifferenceDraft) → all p l ≡ true
    → all_drafts p (map f l) ≡ true
unfolding all_drafts
all-map p f h [] k = refl
all-map p f h (d ∷ l) k = ground (arith, h d, k, all-map p f h l)

-- Whatever the comparison reports is justified by the target's coverage: a fact that is gone is
-- reported as removed only if the coverage is complete, as of unconfirmed absence only if it is not.
pub compare_contract_snapshots-is_justified :
    (sha256 : Str → Str) (build : ContractSnapshot → OwnershipIndex)
    (set_codes : ContractDifferenceSet → List Str) (base target : Facts) (r : ContractDifferenceSet)
    → compare_contract_snapshots sha256 build set_codes base target ≡ compared r
    → all
        (λ (d : ContractDifference). is_justified (is_incomplete target.coverage) d.draft)
        r.differences
      ≡ true
unfolding whole_set difference_set difference sort_differences all_drafts
compare_contract_snapshots-is_justified sha256 build set_codes base target r h =
    let made = map (difference sha256 build base target) (drafts build base target) in
    rw (← compared-whole_set sha256 build set_codes base target r h) (
      all-sort (is_justified (is_incomplete target.coverage)) _ made (
        all-map (is_justified (is_incomplete target.coverage)) (difference sha256 build base target)
          (λ d. refl) (drafts build base target) (drafts-AllJustified base target build).holds))
