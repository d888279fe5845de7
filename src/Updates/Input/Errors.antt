-- ===== src/Updates/Input/Errors.antt =====
-- Which error an input is refused with.
use api_truth.Prelude.{
  map, ap, ◌∙◌, ◌||◌, ◌≡◌, ◌↔◌, refl, Bool, true, false, ◌&&◌, not, List, [], ◌∷◌, any, arith,
}
use api_truth.Prelude.Text.{Str, lit, str_eq}
use api_truth.Updates.Snapshot.{ContractSnapshot}
use api_truth.Updates.Plan.{texts_agree}
use api_truth.Updates.Input.{
  PlanningInput, InputIssue, nested, noncanonical_order, issues_behind, issues_of_valid,
  has_input_shape, err, update_scope_mismatch, update_analysis_mismatch, is_scope, is_analysis,
  outside_paths, recorded_json, semantic_issues, verdict_of, validate_planning_input,
}

-- The target is the service of the base snapshot.
abbrev pub same_scope : PlanningInput → Bool
same_scope i =
    str_eq (i.target).repository_id (i.base_snapshot).repository_id
    && (str_eq (i.target).service_id (i.base_snapshot).service_id
        && str_eq (i.target).service_root (i.base_snapshot).service_root)

-- The base analysis key is the one that the snapshot records.
abbrev pub same_analysis : PlanningInput → Bool
same_analysis i =
    texts_agree (recorded_json (i.base_snapshot).analysis) (recorded_json i.base_analysis_key)

outside-scope : (root : Str) (ps : List Str) → any is_scope (outside_paths root ps) ≡ false
unfolding outside_paths
outside-scope root [] = refl
outside-scope root (p ∷ ps) = ground (arith, outside-scope root ps)

outside-analysis : (root : Str) (ps : List Str) → any is_analysis (outside_paths root ps) ≡ false
unfolding outside_paths
outside-analysis root [] = refl
outside-analysis root (p ∷ ps) = ground (arith, outside-analysis root ps)

-- A scope mismatch is among the issues: of a valid snapshot if the target is another service, and else
-- if it is among the snapshot's own.
abbrev pub scope_reported : List Str → PlanningInput → Bool
scope_reported [] i = not (same_scope i)
scope_reported (c ∷ codes) i = any (λ code. str_eq code (lit "semantic.scope_mismatch")) (c ∷ codes)

abbrev pub analysis_reported : List Str → PlanningInput → Bool
analysis_reported [] i = not (same_analysis i)
analysis_reported (c ∷ codes) i =
    any (λ code. str_eq code (lit "semantic.analysis_mismatch")) (c ∷ codes)

any-nested :
    (p : InputIssue → Bool) (codes : List Str)
    → any p (map nested codes) ≡ any (λ code. p (nested code)) codes
any-nested p [] = refl
any-nested p (c ∷ codes) = ap (λ b. p (nested c) || b) (any-nested p codes)

behind-scope :
    (codes : List Str) (i : PlanningInput)
    → any is_scope (issues_behind codes i) ≡ scope_reported codes i
unfolding issues_behind issues_of_valid
behind-scope [] i = ground (arith, outside-scope (i.target).service_root i.changed_paths)
behind-scope (c ∷ codes) i =
    ap (λ b. str_eq c (lit "semantic.scope_mismatch") || b) (any-nested is_scope codes)

behind-analysis :
    (codes : List Str) (i : PlanningInput)
    → any is_analysis (issues_behind codes i) ≡ analysis_reported codes i
unfolding issues_behind issues_of_valid
behind-analysis [] i = ground (arith, outside-analysis (i.target).service_root i.changed_paths)
behind-analysis (c ∷ codes) i =
    ap (λ b. str_eq c (lit "semantic.analysis_mismatch") || b) (any-nested is_analysis codes)

order_skipped :
    (p : InputIssue → Bool) (snapshot_codes : ContractSnapshot → List Str) (i : PlanningInput)
    → p noncanonical_order ≡ false
    → any p (semantic_issues snapshot_codes i)
      ≡ any p (issues_behind (snapshot_codes i.base_snapshot) i)
unfolding semantic_issues
order_skipped p snapshot_codes i h = ground (arith, h)

verdict-scope :
    (l : List InputIssue) → (verdict_of l ≡ err update_scope_mismatch) ↔ (any is_scope l ≡ true)
unfolding verdict_of
verdict-scope [] = ground arith
verdict-scope (i ∷ l) = ground arith

verdict-analysis :
    (l : List InputIssue)
    → (verdict_of l ≡ err update_analysis_mismatch)
      ↔ ((any is_scope l ≡ false) × (any is_analysis l ≡ true))
unfolding verdict_of
verdict-analysis [] = ground arith
verdict-analysis (i ∷ l) = ground arith

shape_passed :
    (snapshot_codes : ContractSnapshot → List Str) (i : PlanningInput)
    → has_input_shape i ≡ true
    → validate_planning_input snapshot_codes i ≡ verdict_of (semantic_issues snapshot_codes i)
unfolding validate_planning_input
shape_passed snapshot_codes i h = rw h refl

-- Of an input with the schema's shape, a scope mismatch is reported exactly if the snapshot is valid and
-- the target is not its service, or if it is not valid and such a mismatch is among its own issues; an
-- analysis mismatch exactly if that is not so, and the snapshot is valid and records another analysis
-- than the base analysis key, or is not valid and has such a mismatch among its own issues.
pub validate_planning_input-eq-err :
    (snapshot_codes : ContractSnapshot → List Str) (i : PlanningInput)
    → has_input_shape i ≡ true
    → ((validate_planning_input snapshot_codes i ≡ err update_scope_mismatch)
        ↔ (scope_reported (snapshot_codes i.base_snapshot) i ≡ true))
      × ((validate_planning_input snapshot_codes i ≡ err update_analysis_mismatch) ↔ (
          (scope_reported (snapshot_codes i.base_snapshot) i ≡ false)
          × (analysis_reported (snapshot_codes i.base_snapshot) i ≡ true)))
validate_planning_input-eq-err snapshot_codes i h = rw (shape_passed snapshot_codes i h) (
    rw
      (
        ← (
            order_skipped is_scope snapshot_codes i refl
            ∙ behind-scope (snapshot_codes i.base_snapshot) i),
        ← (
            order_skipped is_analysis snapshot_codes i refl
            ∙ behind-analysis (snapshot_codes i.base_snapshot) i),
      )
      (
        verdict-scope (semantic_issues snapshot_codes i),
        verdict-analysis (semantic_issues snapshot_codes i),
      ))
