-- ===== src/Updates/Planner/Shaped.antt =====
-- packages/updates/src/planner.ts: the shape of a plan.
use api_truth.Prelude.{
  Bool, true, false, ◌≡◌, refl, sym, ap, ◌∙◌, Option, none, some, List, [], ◌∷◌, all, arith,
  Bool-cases, inl, inr,
}
use api_truth.Prelude.Text.{Str}
use api_truth.Updates.Utf8.{is_canonical_by, is_canonical_string_set}
use api_truth.Updates.Snapshot.{ContractSnapshot}
use api_truth.Updates.Ownership.{OwnershipIndex}
use api_truth.Updates.Plan.{
  Content, UpdatePlan, PlanIssue, rank_text, outside_issues, action_issues, issue_unless,
  reasons_order, plan_identity, identity_agrees, plan_id_of, validate_plan,
}
use api_truth.Updates.Shape.{
  is_nonempty, is_revision, is_canonical_sha256, is_project_path, is_analysis_key, is_service,
  is_update_plan,
}
use api_truth.Updates.Shape.Unique.{canonical-has_unique_items, canonical_set-has_unique_items}
use api_truth.Updates.Input.{PlanningInput, has_input_shape}
use api_truth.Updates.Planner.{changes_of, may_reuse, reuse_content, full_content, plan_content}
use api_truth.Updates.Planner.Affected.{reuse_planned, plan_content_cases}

pub same_content : {c d : Content} → some c ≡ some d → c ≡ d
same_content {c} e = ap content_or e
  where
    content_or : Option Content → Content
    content_or none = c
    content_or (some d) = d

-- What a plan takes over from its input.
record TakesOver (i : PlanningInput) (c : Content) : Type 0 where
  service : is_service c.service ≡ true
  base : is_analysis_key c.base ≡ true
  target : is_analysis_key c.target ≡ true
  paths : all is_project_path c.changed_paths ≡ true

module _ (i : PlanningInput) (shape : has_input_shape i ≡ true)
    (id : is_nonempty (i.base_snapshot).snapshot_id ≡ true)
    (revision : is_revision (i.base_snapshot).immutable_revision ≡ true)
    (digest : is_canonical_sha256 (i.base_snapshot).source_digest ≡ true) where
  reuse-TakesOver : TakesOver i (reuse_content i)
  unfolding reuse_content has_input_shape is_service
  reuse-TakesOver = record {
    service = ground (arith, shape, id, revision, digest);
    base = ground (arith, shape);
    target = ground (arith, shape);
    paths = ground (arith, shape);
  }

  -- A full content has the fields of a reusing one, but for the action's part.
  plan_content-TakesOver :
      (builder : ContractSnapshot → OwnershipIndex) (content : Content)
      → plan_content builder i ≡ some content
      → TakesOver i content
  unfolding full_content reuse_content
  plan_content-TakesOver builder content h = elim (Bool-cases (may_reuse i (changes_of i))) [
    | inl e ↦ rw (same_content (sym h ∙ reuse_planned builder i e)) reuse-TakesOver
    | inr e ↦
        let (w, same) = plan_content_cases builder i content e h in
        let r = reuse-TakesOver in
        rw same (record { service = r.service; base = r.base; target = r.target; paths = r.paths })
  ]

-- The lists of a plan whose semantic check finds nothing.
record Ordered (c : Content) : Type 0 where
  paths : is_canonical_string_set c.changed_paths ≡ true
  ids : is_canonical_string_set c.affected_endpoint_ids ≡ true
  reasons : is_canonical_by rank_text c.fallback_reasons ≡ true

outside_rest :
    (root : Str) (ps : List Str) (rest : List PlanIssue)
    → outside_issues root ps rest ≡ []
    → rest ≡ []
unfolding outside_issues
outside_rest root [] rest h = h
outside_rest root (p ∷ ps) rest h = outside_rest root ps rest (ground (arith, h))

first_passed :
    (b : Bool) (issue : PlanIssue) (rest : List PlanIssue)
    → issue_unless b issue rest ≡ []
    → b ≡ true
first_passed true issue rest h = refl
first_passed false issue rest h = cc h

module _ (sha256 : Str → Str) where
  validate_plan-Ordered : (p : UpdatePlan) → validate_plan sha256 p ≡ [] → Ordered p.content
  unfolding validate_plan
  validate_plan-Ordered p h = record {
    paths = ground (arith, h);
    ids = ground (arith, h);
    reasons =
        let later : List PlanIssue =
          issue_unless (is_canonical_by rank_text p.content.fallback_reasons) reasons_order (
            action_issues p.content.action p.content
              (issue_unless (identity_agrees sha256 p) plan_identity [])) in
        first_passed (is_canonical_by rank_text p.content.fallback_reasons) reasons_order
          (action_issues p.content.action p.content
            (issue_unless (identity_agrees sha256 p) plan_identity []))
          (outside_rest p.content.service.service_root p.content.changed_paths later
            (ground (arith, h)));
  }

  plan_id_nonempty :
      (c : Content) (id : Str) → plan_id_of sha256 c ≡ some id → is_nonempty id ≡ true
  unfolding plan_id_of
  plan_id_nonempty c id h = ground (arith, h)

  pub plan_content-is_update_plan :
      (builder : ContractSnapshot → OwnershipIndex) (i : PlanningInput) (c : Content) (id : Str)
      → has_input_shape i ≡ true
      → is_nonempty (i.base_snapshot).snapshot_id ≡ true
      → is_revision (i.base_snapshot).immutable_revision ≡ true
      → is_canonical_sha256 (i.base_snapshot).source_digest ≡ true
      → plan_content builder i ≡ some c
      → all is_nonempty c.affected_endpoint_ids ≡ true
      → plan_id_of sha256 c ≡ some id
      → validate_plan sha256 (record { content = c; plan_id = id }) ≡ []
      → is_update_plan (record { content = c; plan_id = id }) ≡ true
  unfolding is_update_plan
  plan_content-is_update_plan builder i c id shape named revision digest h ids found valid =
      let t = plan_content-TakesOver i shape named revision digest builder c h in
      let o = validate_plan-Ordered (record { content = c; plan_id = id }) valid in
      rw
        (
          plan_id_nonempty c id found,
          t.service,
          t.base,
          t.target,
          t.paths,
          canonical_set-has_unique_items c.changed_paths o.paths,
          ids,
          canonical_set-has_unique_items c.affected_endpoint_ids o.ids,
          canonical-has_unique_items rank_text c.fallback_reasons o.reasons,
        )
        refl
