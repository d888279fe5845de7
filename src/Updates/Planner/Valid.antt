-- ===== src/Updates/Planner/Valid.antt =====
-- A plan of a valid input passes the plan's own check, so the planner returns it.
use api_truth.Prelude.{
  all, Bool, sym, ◌≡◌, refl, ◌∙◌, true, ◌&&◌, ◌||◌, not, some, List, [], ◌∷◌, ◌++◌, map, arith,
  Bool-cases, inl, inr,
}
use api_truth.Prelude.Text.{Str, lit, str_eq_iff, str_eq_refl}
use api_truth.Prelude.Sets.{has, add_all}
use api_truth.Prelude.Sorting.{sort, has-sort}
use api_truth.Orchestration.Canonical.Total.{plain, plain_items-items, serialize_total}
use api_truth.Updates.Utf8.{utf8_before, is_canonical_by, is_canonical_string_set}
use api_truth.Updates.Utf8.Apart.{distinct, distinct-add_all, AreApart, sort-canonical_set}
use api_truth.Updates.Snapshot.{ContractSnapshot}
use api_truth.Updates.Ownership.{OwnershipIndex}
use api_truth.Updates.Plan.{
  Content, UpdatePlan, PlanIssue, reason_name, rank_text, reuse_base_snapshot, analyze_full_service,
  content_json, service_json, mode_fields, outside_issues, action_issues, reuse_agrees,
  identity_agrees, plan_id_of, validate_plan,
}
use api_truth.Updates.Changed.{Records, gather, changed_records, service_relative_path}
use api_truth.Updates.Shape.{is_nonempty, is_revision, is_canonical_sha256, is_update_plan}
use api_truth.Updates.Input.{
  PlanningInput, ok, outside_paths, issues_behind, issues_of_valid, has_input_shape,
  semantic_issues, verdict_of, validate_planning_input,
}
use api_truth.Updates.Planner.{
  Changes, changes_of, boundary, may_reuse, reasons, reuse_content, full_content, gathered,
  affected, plan_content, finish, plan_valid, create_update_planner,
}
use api_truth.Updates.Planner.Reasons.{sort-reasons, reasons-canonical}
use api_truth.Updates.Planner.Shaped.{same_content, plan_content-is_update_plan}
use api_truth.Updates.Planner.Reuse.{analyses_agree}
use api_truth.Updates.Planner.Affected.{
  IsUnchanged, may_reuse-IsUnchanged, reuse_planned, plan_content_cases,
}

-- What a valid input's fields have.
record IsValidInput (i : PlanningInput) : Type 0 where
  paths : is_canonical_string_set i.changed_paths ≡ true
  outside : outside_paths (i.target).service_root i.changed_paths ≡ []
  digest : is_canonical_sha256 (i.base_snapshot).source_digest ≡ true

behind_none :
    (codes : List Str) (i : PlanningInput) → issues_behind codes i ≡ [] → issues_of_valid i ≡ []
unfolding issues_behind
behind_none [] i h = h
behind_none (c ∷ codes) i h = cc h

ordered_first :
    (snapshot_codes : ContractSnapshot → List Str) (i : PlanningInput)
    → semantic_issues snapshot_codes i ≡ []
    → (is_canonical_string_set i.changed_paths ≡ true)
      × (issues_behind (snapshot_codes i.base_snapshot) i ≡ [])
unfolding semantic_issues
ordered_first snapshot_codes i h = ground (arith, h)

valid_input :
    (snapshot_codes : ContractSnapshot → List Str) (i : PlanningInput)
    → semantic_issues snapshot_codes i ≡ []
    → IsValidInput i
unfolding issues_of_valid
valid_input snapshot_codes i h =
    let o = ordered_first snapshot_codes i h in
    let v = behind_none (snapshot_codes i.base_snapshot) i o.1 in
    record { paths = o.0; outside = ground (arith, v); digest = ground (arith, v) }

inside_clear :
    (root : Str) (ps : List Str) (rest : List PlanIssue)
    → outside_paths root ps ≡ []
    → outside_issues root ps rest ≡ rest
unfolding outside_paths outside_issues
inside_clear root [] rest h = refl
inside_clear root (p ∷ ps) rest h = ground (arith, inside_clear root ps rest)

content-plain : (c : Content) → plain (content_json c) ≡ true
unfolding content_json service_json mode_fields plain
content-plain c = ground (
  arith,
  plain_items-items c.changed_paths,
  plain_items-items c.affected_endpoint_ids,
  plain_items-items (map reason_name c.fallback_reasons),
)

gather-distinct :
    (s : ContractSnapshot) (index : OwnershipIndex) (root : Str) (ps : List Str) (acc : Records)
    → distinct acc.affected_endpoint_ids ≡ true
    → distinct (gather s index root ps acc).affected_endpoint_ids ≡ true
unfolding gather
gather-distinct s index root [] acc h = h
gather-distinct s index root (p ∷ ps) acc h =
    let r = changed_records s index (service_relative_path p root) in
    gather-distinct s index root ps
      (record {
        affected_endpoint_ids = add_all r.affected_endpoint_ids acc.affected_endpoint_ids;
        indexed = acc.indexed && r.indexed;
        incomplete = acc.incomplete || r.incomplete;
      })
      (distinct-add_all r.affected_endpoint_ids acc.affected_endpoint_ids h)

affected-distinct :
    (index : OwnershipIndex) (i : PlanningInput) (c : Changes) (w : Bool)
    → distinct (affected index c (gathered index i w)) ≡ true
unfolding affected gathered distinct
affected-distinct index i c w =
    let start : distinct (gathered index i w).affected_endpoint_ids ≡ true =
      gather-distinct i.base_snapshot index (i.target).service_root i.changed_paths _ refl in
    elim (Bool-cases (boundary c)) [
      | inl e ↦
          rw e
            (distinct-add_all index.endpoint_ids (gathered index i w).affected_endpoint_ids start)
      | inr e ↦ rw e start
    ]

module _ (sha256 : Str → Str) where
  plan_id_total : (c : Content) → (id : Str) × (plan_id_of sha256 c ≡ some id)
  unfolding plan_id_of
  plan_id_total c =
      let (text, e) = serialize_total (content_json c) (content-plain c) in
      (lit "update-plan-" ++ sha256 text, rw (e, plan_id_of) refl)

  validate_clear :
      (p : UpdatePlan)
      → is_canonical_string_set p.content.changed_paths ≡ true
      → is_canonical_string_set p.content.affected_endpoint_ids ≡ true
      → outside_paths p.content.service.service_root p.content.changed_paths ≡ []
      → is_canonical_by rank_text p.content.fallback_reasons ≡ true
      → ((rest : List PlanIssue) → action_issues p.content.action p.content rest ≡ rest)
      → identity_agrees sha256 p ≡ true
      → validate_plan sha256 p ≡ []
  unfolding validate_plan
  validate_clear p paths ids outside reasons action identity =
      rw (paths, ids, reasons, identity, action [])
        (inside_clear p.content.service.service_root p.content.changed_paths [] outside)

  identity_found :
      (c : Content) (id : Str)
      → plan_id_of sha256 c ≡ some id
      → identity_agrees sha256 (record { content = c; plan_id = id }) ≡ true
  unfolding identity_agrees
  identity_found c id e = rw (e, identity_agrees) (str_eq_refl id)

  reuse_action :
      (i : PlanningInput) (rest : List PlanIssue)
      → IsUnchanged i
      → action_issues reuse_base_snapshot (reuse_content i) rest ≡ rest
  unfolding action_issues reuse_agrees reuse_content
  reuse_action i rest u = ground (
    arith,
    u.no_paths,
    str_eq_iff (i.base_snapshot).source_digest (i.target).source_digest,
    u.source,
    analyses_agree i.base_analysis_key (i.target).analysis_key u.analyzer u.fingerprint u.config
        u.identity u.ir,
  )

  full_action :
      (index : OwnershipIndex) (i : PlanningInput) (c : Changes) (r : Records)
      (rest : List PlanIssue)
      → action_issues analyze_full_service (full_content index i c r) rest ≡ rest
  unfolding action_issues full_content
  full_action index i c r rest =
      rw (sort-reasons i c (not r.indexed) r.incomplete) (unfold reasons in refl)

  reuse_valid :
      (i : PlanningInput) (id : Str)
      → IsUnchanged i
      → plan_id_of sha256 (reuse_content i) ≡ some id
      → validate_plan sha256 (record { content = reuse_content i; plan_id = id }) ≡ []
  unfolding reuse_content
  reuse_valid i id u e =
      validate_clear (record { content = reuse_content i; plan_id = id })
        (rw (u.no_paths) (unfold is_canonical_string_set in refl))
        (unfold is_canonical_string_set in refl) (rw (u.no_paths) (unfold outside_paths in refl))
        (unfold is_canonical_by in refl) (λ rest. reuse_action i rest u)
        (identity_found (reuse_content i) id e)

  full_valid :
      (index : OwnershipIndex) (i : PlanningInput) (c : Changes) (w : Bool) (id : Str)
      → IsValidInput i
      → AreApart (full_content index i c (gathered index i w)).affected_endpoint_ids
      → plan_id_of sha256 (full_content index i c (gathered index i w)) ≡ some id
      → validate_plan sha256
          (record { content = full_content index i c (gathered index i w); plan_id = id })
        ≡ []
  unfolding full_content
  full_valid index i c w id v apart e =
      let r = gathered index i w in
      let ids = affected index c r in
      let there : (x : Str) → has x ids ≡ true → has x (sort utf8_before ids) ≡ true =
        λ x m. rw (has-sort utf8_before x ids) m in
      validate_clear (record { content = full_content index i c r; plan_id = id }) v.paths
        (sort-canonical_set ids (affected-distinct index i c w)
          (λ x y mx my n. apart x y (there x mx) (there y my) n))
        v.outside
        (rw (sort-reasons i c (not r.indexed) r.incomplete)
          (reasons-canonical i c (not r.indexed) r.incomplete))
        (full_action index i c r) (identity_found (full_content index i c r) id e)

  plan_content_valid :
      (builder : ContractSnapshot → OwnershipIndex) (i : PlanningInput) (content : Content)
      (id : Str)
      → IsValidInput i
      → plan_content builder i ≡ some content
      → AreApart content.affected_endpoint_ids
      → plan_id_of sha256 content ≡ some id
      → validate_plan sha256 (record { content = content; plan_id = id }) ≡ []
  plan_content_valid builder i content id v h apart e =
      elim (Bool-cases (may_reuse i (changes_of i))) [
        | inl same ↦
            let at_reuse = same_content (sym h ∙ reuse_planned builder i same) in
            rw at_reuse (reuse_valid i id (may_reuse-IsUnchanged i same) (rw at_reuse at e))
        | inr other ↦
            let (w, at_full) = plan_content_cases builder i content other h in
            rw at_full (
              full_valid (builder i.base_snapshot) i (changes_of i) w id v (rw at_full at apart)
                (rw at_full at e))
      ]

module _ (sha256 : Str → Str) (snapshot_codes : ContractSnapshot → List Str) where
  create-plan_valid :
      (builder : ContractSnapshot → OwnershipIndex) (i : PlanningInput)
      → has_input_shape i ≡ true
      → semantic_issues snapshot_codes i ≡ []
      → create_update_planner sha256 snapshot_codes builder i
        ≡ plan_valid sha256 snapshot_codes builder i
  unfolding create_update_planner validate_planning_input verdict_of
  create-plan_valid builder i shape h =
      rw (shape, h, create_update_planner, validate_planning_input) refl

  plan-finish :
      (builder : ContractSnapshot → OwnershipIndex) (i : PlanningInput) (content : Content)
      → plan_content builder i ≡ some content
      → plan_valid sha256 snapshot_codes builder i ≡ finish sha256 snapshot_codes content
  unfolding plan_valid
  plan-finish builder i content h = rw (h, plan_valid) refl

  finish-ok :
      (content : Content) (id : Str)
      → plan_id_of sha256 content ≡ some id
      → is_update_plan (record { content = content; plan_id = id }) ≡ true
      → validate_plan sha256 (record { content = content; plan_id = id }) ≡ []
      → finish sha256 snapshot_codes content ≡ ok (record { content = content; plan_id = id })
  unfolding finish
  finish-ok content id h shape valid = rw (h, finish) (rw (shape, valid) refl)

-- Of a valid input, with a snapshot id that is not empty, a base revision of the plan's pattern, and
-- affected endpoint ids that are not empty and that UTF-8 tells apart, the planner returns a plan of
-- the content that was planned (it is planned if no endpoint misses in the index), and the plan passes
-- its own check, of the shape and of the meaning.
pub create_update_planner_valid :
    (sha256 : Str → Str) (snapshot_codes : ContractSnapshot → List Str)
    (builder : ContractSnapshot → OwnershipIndex) (i : PlanningInput) (content : Content)
    → has_input_shape i ≡ true
    → semantic_issues snapshot_codes i ≡ []
    → is_nonempty (i.base_snapshot).snapshot_id ≡ true
    → is_revision (i.base_snapshot).immutable_revision ≡ true
    → plan_content builder i ≡ some content
    → all is_nonempty content.affected_endpoint_ids ≡ true
    → AreApart content.affected_endpoint_ids
    → (plan : UpdatePlan) × (create_update_planner sha256 snapshot_codes builder i ≡ ok plan)
      × (plan.content ≡ content)
      × (is_update_plan plan ≡ true)
      × (validate_plan sha256 plan ≡ [])
create_update_planner_valid sha256 codes builder i content shape h named revision planned ids
      apart =
    let v = valid_input codes i h in
    let (id, e) = plan_id_total sha256 content in
    let valid = plan_content_valid sha256 builder i content id v planned apart e in
    let shaped =
      plan_content-is_update_plan sha256 builder i content id shape named revision v.digest planned
        ids e valid in
    (
      record { content = content; plan_id = id },
      create-plan_valid sha256 codes builder i shape h
          ∙ (plan-finish sha256 codes builder i content planned
              ∙ finish-ok sha256 codes content id e shaped valid),
      refl,
      shaped,
      valid,
    )
