-- ===== src/Updates/Planner/Reasons.antt =====
-- The fallback reasons of a plan stand in the order of their ranks.
use api_truth.Prelude.{
  ℕ, suc, ◌≤◌, ◌<◌, ◌≡◌, refl, Bool, true, false, ◌&&◌, List, [], ◌∷◌, leb, arith,
}
use api_truth.Prelude.Text.{str_lt}
use api_truth.Prelude.Sorting.{insert, sort}
use api_truth.Orchestration.Canonical.{code_points}
use api_truth.Updates.Utf8.{utf8, utf8_before, is_canonical_by}
use api_truth.Updates.Plan.{
  FallbackReason, rank, rank_text, adapter_incremental_targets_unsupported,
  prior_coverage_incomplete, changed_paths_incomplete, changed_paths_digest_mismatch,
  changed_path_unindexed, dependency_index_incomplete, analyzer_changed, config_changed, ir_changed,
  identity_changed,
}
use api_truth.Updates.Input.{PlanningInput}
use api_truth.Updates.Planner.{Changes, reason_if, reasons, rank_before}

-- Ranks from `n` on, each greater than the one before.
ascending : ℕ → List FallbackReason → Bool
ascending n [] = true
ascending n (r ∷ l) = leb n (rank r) && ascending (suc (rank r)) l

ascending-weaken :
    (m n : ℕ) (l : List FallbackReason) → n ≤ m → ascending m l ≡ true → ascending n l ≡ true
unfolding ascending
ascending-weaken m n [] h k = refl
ascending-weaken m n (r ∷ l) h k = ground arith

ascending-if :
    (b : Bool) (r : FallbackReason) (l : List FallbackReason)
    → ascending (suc (rank r)) l ≡ true
    → ascending (rank r) (reason_if b r l) ≡ true
ascending-if true r l h = unfold ascending in ground arith
ascending-if false r l h = ascending-weaken (suc (rank r)) (rank r) l (omega arith) h

reasons-ascending :
    (i : PlanningInput) (c : Changes) (u n : Bool) → ascending 0 (reasons i c u n) ≡ true
unfolding reasons
reasons-ascending i c u n = ascending-if true adapter_incremental_targets_unsupported _ (
    ascending-if _ prior_coverage_incomplete _ (
      ascending-if _ changed_paths_incomplete _ (
        ascending-if _ changed_paths_digest_mismatch _ (
          ascending-if _ changed_path_unindexed _ (
            ascending-if _ dependency_index_incomplete _ (
              ascending-if _ analyzer_changed _ (
                ascending-if _ config_changed _ (
                  ascending-if _ ir_changed _
                    (ascending-if _ identity_changed [] (unfold ascending in refl))))))))))

sort-ascending : (n : ℕ) (l : List FallbackReason) → ascending n l ≡ true → sort rank_before l ≡ l
unfolding ascending sort insert
sort-ascending n [] h = refl
sort-ascending n (r ∷ []) h = refl
sort-ascending n (r ∷ s ∷ l) h =
    rw (sort-ascending (suc (rank r)) (s ∷ l) (ground arith)) (ground arith)

rank-lt : (r : FallbackReason) → rank r < 10
rank-lt r = ground arith

rank_text_before :
    (r s : FallbackReason) → rank r < rank s → utf8_before (rank_text r) (rank_text s) ≡ true
unfolding utf8 code_points str_lt
rank_text_before r s h = ground (arith, rank-lt r, rank-lt s)

ascending-canonical :
    (n : ℕ) (l : List FallbackReason) → ascending n l ≡ true → is_canonical_by rank_text l ≡ true
unfolding ascending is_canonical_by
ascending-canonical n [] h = refl
ascending-canonical n (r ∷ []) h = refl
ascending-canonical n (r ∷ s ∷ l) h =
    ground (arith, rank_text_before r s, ascending-canonical (suc (rank r)) (s ∷ l))

-- The sort changes nothing.
pub sort-reasons :
    (i : PlanningInput) (c : Changes) (u n : Bool)
    → sort rank_before (reasons i c u n) ≡ reasons i c u n
sort-reasons i c u n = sort-ascending 0 (reasons i c u n) (reasons-ascending i c u n)

pub reasons-canonical :
    (i : PlanningInput) (c : Changes) (u n : Bool)
    → is_canonical_by rank_text (reasons i c u n) ≡ true
reasons-canonical i c u n = ascending-canonical 0 (reasons i c u n) (reasons-ascending i c u n)
