-- ===== src/Updates/Planner/Affected.antt =====
-- Which endpoints a plan names, and when it reuses the base snapshot.
use api_truth.Prelude.{
  Bool, Option, none, some, Option-cases, ap, sym, ◌∙◌, ◌≡◌, ◌↔◌, refl, true, false, ◌&&◌, ◌||◌,
  List, [], ◌∷◌, any, arith, Bool-cases, inl, inr,
}
use api_truth.Prelude.Text.{Str, str_eq_iff}
use api_truth.Prelude.Sets.{has, has-add_all}
use api_truth.Prelude.Sorting.{has-sort}
use api_truth.Updates.Utf8.{utf8_before}
use api_truth.Updates.Snapshot.{ContractSnapshot}
use api_truth.Updates.Ownership.{OwnershipIndex}
use api_truth.Updates.Plan.{
  Content, Action, reuse_base_snapshot, analyzer_json, texts_agree, is_empty,
}
use api_truth.Updates.Changed.{Records, endpoint_without_source_closure, service_relative_path}
use api_truth.Updates.Changed.Owned.{owns, gather-owns}
use api_truth.Updates.Input.{PlanningInput}
use api_truth.Updates.Planner.{
  Changes, changes_of, boundary, may_reuse, gathered, affected, reuse_content, full_content,
  plan_content,
}

has-affected :
    (x : Str) (index : OwnershipIndex) (c : Changes) (r : Records)
    → has x (affected index c r)
      ≡ (boundary c && has x index.endpoint_ids || has x r.affected_endpoint_ids)
unfolding affected
has-affected x index c r = elim (Bool-cases (boundary c)) [
  | inl e ↦ rw e (has-add_all x index.endpoint_ids r.affected_endpoint_ids)
  | inr e ↦ rw e refl
]

has-gathered :
    (x : Str) (index : OwnershipIndex) (i : PlanningInput) (without_source : Bool)
    → has x (gathered index i without_source).affected_endpoint_ids
      ≡ any
          (λ p. owns i.base_snapshot index x (service_relative_path p (i.target).service_root))
          i.changed_paths
unfolding gathered has
has-gathered x index i without_source =
    rw (gather-owns i.base_snapshot index x (i.target).service_root i.changed_paths) (ground arith)

full-owns :
    (index : OwnershipIndex) (i : PlanningInput) (x : Str) (without_source : Bool)
    → has x
        (full_content index i
          (changes_of i)
          (gathered index i without_source)).affected_endpoint_ids
      ≡ (boundary (changes_of i) && has x index.endpoint_ids
          || any
              (λ p. owns i.base_snapshot index x (service_relative_path p (i.target).service_root))
              i.changed_paths)
unfolding full_content
full-owns index i x without_source =
    let c = changes_of i in
    let r = gathered index i without_source in
    rw (has-sort utf8_before x (affected index c r))
      (rw (has-affected x index c r) (rw (has-gathered x index i without_source) refl))

-- A plan is not planned only if its base snapshot is not reused and endpointWithoutSourceClosure throws.
pub plan_content_cases :
    (builder : ContractSnapshot → OwnershipIndex) (i : PlanningInput) (content : Content)
    → may_reuse i (changes_of i) ≡ false
    → plan_content builder i ≡ some content
    → (without_source : Bool) × (content
        ≡ full_content
            (builder i.base_snapshot)
            i
            (changes_of i)
            (gathered (builder i.base_snapshot) i without_source))
unfolding plan_content
plan_content_cases builder i content h k =
    elim (Option-cases
      (endpoint_without_source_closure i.base_snapshot (builder i.base_snapshot))) [
        | inl e ↦ absurd (ground (arith, e, h, k))
        | inr (w, e) ↦ (w, ground (arith, e, h, k))
      ]

-- A plan that does not reuse the base snapshot names an endpoint exactly if the analysis changed and
-- the index lists it, or if the index has it own a record of evidence or a schema on a changed path
-- (every listed endpoint, if the path is the service's root).
pub affected-owns :
    (builder : ContractSnapshot → OwnershipIndex) (i : PlanningInput) (content : Content) (x : Str)
    → may_reuse i (changes_of i) ≡ false
    → plan_content builder i ≡ some content
    → has x content.affected_endpoint_ids ≡ (
        boundary (changes_of i) && has x (builder i.base_snapshot).endpoint_ids
        || any
            (λ p.
              owns i.base_snapshot
                (builder i.base_snapshot)
                x
                (service_relative_path p (i.target).service_root))
            i.changed_paths)
affected-owns builder i content x h k =
    let (w, e) = plan_content_cases builder i content h k in
    rw e (full-owns (builder i.base_snapshot) i x w)

-- What reuse of the base snapshot relies on.
pub record IsUnchanged (i : PlanningInput) : Type 0 where
  pub source : (i.base_snapshot).source_digest ≡ (i.target).source_digest
  pub analyzer :
      texts_agree (analyzer_json i.base_analysis_key) (analyzer_json (i.target).analysis_key) ≡ true
  pub ir : (i.base_analysis_key).ir_version ≡ ((i.target).analysis_key).ir_version
  pub identity : (i.base_analysis_key).identity_version ≡ ((i.target).analysis_key).identity_version
  pub config : (i.base_analysis_key).config_version ≡ ((i.target).analysis_key).config_version
  pub fingerprint :
      (i.base_analysis_key).config_fingerprint ≡ ((i.target).analysis_key).config_fingerprint
  pub prior : (i.base_snapshot).coverage_complete ≡ true
  pub paths : i.changed_paths_complete ≡ true
  pub no_paths : i.changed_paths ≡ []

empty_list : (l : List Str) → is_empty l ≡ true → l ≡ []
empty_list [] h = refl
empty_list (x ∷ l) h = cc

pub may_reuse-IsUnchanged : (i : PlanningInput) → may_reuse i (changes_of i) ≡ true → IsUnchanged i
unfolding changes_of
may_reuse-IsUnchanged i h = record {
  source =
      (str_eq_iff (i.base_snapshot).source_digest (i.target).source_digest).0 (ground (arith, h));
  ir =
      (str_eq_iff (i.base_analysis_key).ir_version ((i.target).analysis_key).ir_version).0
        (ground (arith, h));
  identity =
      (str_eq_iff (i.base_analysis_key).identity_version
          ((i.target).analysis_key).identity_version).0
        (ground (arith, h));
  config =
      (str_eq_iff (i.base_analysis_key).config_version ((i.target).analysis_key).config_version).0
        (ground (arith, h));
  fingerprint =
      (str_eq_iff (i.base_analysis_key).config_fingerprint
          ((i.target).analysis_key).config_fingerprint).0
        (ground (arith, h));
  analyzer = ground (arith, h);
  prior = ground (arith, h);
  paths = ground (arith, h);
  no_paths = empty_list i.changed_paths (ground (arith, h));
}

IsUnchanged-may_reuse : (i : PlanningInput) → IsUnchanged i → may_reuse i (changes_of i) ≡ true
unfolding changes_of
IsUnchanged-may_reuse i u = ground (
  arith,
  u.analyzer,
  u.prior,
  u.paths,
  u.no_paths,
  (str_eq_iff (i.base_snapshot).source_digest (i.target).source_digest).1 u.source,
  (str_eq_iff (i.base_analysis_key).ir_version ((i.target).analysis_key).ir_version).1 u.ir,
  (str_eq_iff (i.base_analysis_key).identity_version ((i.target).analysis_key).identity_version).1
      u.identity,
  (str_eq_iff (i.base_analysis_key).config_version ((i.target).analysis_key).config_version).1
      u.config,
  (str_eq_iff (i.base_analysis_key).config_fingerprint
        ((i.target).analysis_key).config_fingerprint).1
      u.fingerprint,
)

reuses-may_reuse :
    (builder : ContractSnapshot → OwnershipIndex) (i : PlanningInput) (content : Content)
    → plan_content builder i ≡ some content
    → (content.action ≡ reuse_base_snapshot) ↔ (may_reuse i (changes_of i) ≡ true)
unfolding full_content reuse_content plan_content
reuses-may_reuse builder i content h = elim (Bool-cases (may_reuse i (changes_of i))) [
  | inl e ↦
      let same : some (reuse_content i) ≡ some content = ground (arith, e, h) in
      (λ k. e, λ k. sym (ap action_or same))
  | inr e ↦
      let (w, same) = plan_content_cases builder i content e h in
      (λ k. cc (sym (ap (λ (c : Content). c.action) same) ∙ k), λ k. cc (e, k))
]
  where
    action_or : Option Content → Action
    action_or none = reuse_base_snapshot
    action_or (some c) = c.action

pub reuse_planned :
    (builder : ContractSnapshot → OwnershipIndex) (i : PlanningInput)
    → may_reuse i (changes_of i) ≡ true
    → plan_content builder i ≡ some (reuse_content i)
unfolding plan_content
reuse_planned builder i h = ground (arith, h)

-- A plan is made and reuses the base snapshot exactly if the source digests, the analyzers' canonical
-- texts and the versions and configurations agree, the prior coverage was complete, and the list of
-- changed paths is complete and empty.
pub reuses-IsUnchanged :
    (builder : ContractSnapshot → OwnershipIndex) (i : PlanningInput)
    → ((content : Content) × (plan_content builder i ≡ some content)
        × (content.action ≡ reuse_base_snapshot))
      ↔ IsUnchanged i
unfolding reuse_content
reuses-IsUnchanged builder i = (
  λ k. may_reuse-IsUnchanged i ((reuses-may_reuse builder i k.0 k.1).0 k.2),
  λ u. (reuse_content i, reuse_planned builder i (IsUnchanged-may_reuse i u), refl),
)
