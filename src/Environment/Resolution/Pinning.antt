-- ===== src/Environment/Resolution/Pinning.antt =====
-- When an environment has a contract.
use api_truth.Prelude.{
  ◌≡◌, refl, Bool, true, false, Option, none, some, List, [], ◌∷◌, arith, ◌∙◌, map, length,
  if◌then◌else◌,
}
use api_truth.Prelude.Sorting.{sort, length-sort}
use api_truth.Prelude.Text.{Str, str_eq_iff}
use api_truth.Environment.Resolution.{
  Input, Observation, Item, Binding, Snapshot, RevisionReference, ServingState, Completeness,
  Contract, resolved, resolve_environment, resolve_serving, bindings_of, snapshots_of, map_item,
  map_known, unbound, analysed, serving, active_before, sole_binding, sole_snapshot, Attempt,
  Mapped, Active, contract_of,
}

-- A complete observation of one artifact, whose known revision is the one that its only binding
-- names, and has this snapshot for its only one.
pub record IsPinned (input : Input) (snapshot : Str) : Type 0 where
  pub artifact : Str
  pub revision : Str
  pub observed :
      input.observation
      ≡ some (record {
        completeness = Completeness.complete;
        serving_state =
            ServingState.known
              (record { artifact_id = artifact; revision = RevisionReference.known revision } ∷ []);
      })
  pub binding : Binding
  pub bound : bindings_of input artifact ≡ binding ∷ []
  pub bound_revision : binding.revision ≡ revision
  pub analysis : Snapshot
  pub analysed_once : snapshots_of input revision ≡ analysis ∷ []
  pub pinned : analysis.snapshot_id ≡ snapshot

-- A pinned environment has a resolved contract, with the snapshot that it is pinned to.
pub IsPinned-resolved :
    (input : Input) (snapshot : Str)
    → IsPinned input snapshot
    → ((resolve_environment input).contract ≡ resolved)
      × ((resolve_environment input).snapshot_id ≡ some snapshot)
unfolding resolve_environment
IsPinned-resolved input snapshot p = ground (arith, str_eq_iff p.binding.revision p.revision)

sole_binding_inv :
    (bs : List Binding) (r : Str)
    → sole_binding bs r ≡ true
    → (b : Binding) × (bs ≡ b ∷ []) × (b.revision ≡ r)
sole_binding_inv [] r h = cc
sole_binding_inv (b ∷ []) r h = (b, refl, (str_eq_iff b.revision r).0 h)
sole_binding_inv (b ∷ c ∷ bs) r h = cc

sole_snapshot_inv :
    (ss : List Snapshot) {id : Str}
    → sole_snapshot ss ≡ some id
    → (s : Snapshot) × (ss ≡ s ∷ []) × (s.snapshot_id ≡ id)
sole_snapshot_inv [] h = cc
sole_snapshot_inv (s ∷ []) h = (s, refl, cc)
sole_snapshot_inv (s ∷ t ∷ ss) h = cc

-- Only one item can be resolved, and only in a complete observation.
serving-resolved :
    (attempt : Option Attempt) (c : Completeness) (contract : Contract) (active : List Active)
    → (serving attempt c contract active).contract ≡ resolved
    → (c ≡ Completeness.complete) × (length active ≡ 1) × (contract ≡ resolved)
unfolding serving
serving-resolved attempt c contract active h = ground arith

chosen-resolved :
    (artifact r : Str) (b : Bool) (o : Option Str)
    → contract_of ((if b then analysed artifact r o else unbound artifact (some r)) ∷ []) ≡ resolved
    → (id : Str) × (b ≡ true) × (o ≡ some id)
unfolding analysed unbound
chosen-resolved artifact r true none h = cc
chosen-resolved artifact r true (some id) h = (id, refl, refl)
chosen-resolved artifact r false o h = cc

module _ (input : Input) where
  map_known-resolved :
      (artifact r : Str)
      → contract_of (map_known input artifact r ∷ []) ≡ resolved
      → (id : Str) × (sole_binding (bindings_of input artifact) r ≡ true)
        × (sole_snapshot (snapshots_of input r) ≡ some id)
  map_known-resolved artifact r h =
      chosen-resolved artifact r (sole_binding (bindings_of input artifact) r)
        (sole_snapshot (snapshots_of input r)) (unfold map_known in h)

  -- What a resolved item and its observation are.
  abbrev Sole : Completeness → ServingState → Type 0
  Sole c s =
      (artifact : Str) × (r : Str) × (c ≡ Completeness.complete)
      × (s
          ≡ ServingState.known
              (record { artifact_id = artifact; revision = RevisionReference.known r } ∷ []))
      × (contract_of (map_known input artifact r ∷ []) ≡ resolved)

  only_one_item :
      (c : Completeness) (i : Item) (reference : RevisionReference)
      → i.revision ≡ reference
      → c ≡ Completeness.complete
      → contract_of (map_item input i ∷ []) ≡ resolved
      → Sole c (ServingState.known (i ∷ []))
  only_one_item c i (RevisionReference.known r) e whole h = (
    i.artifact_id,
    r,
    whole,
    (λ k. ServingState.known (record { artifact_id = i.artifact_id; revision = e k } ∷ [])),
    unfold map_item in ground (arith, e, h),
  )
  only_one_item c i RevisionReference.unknown e whole h =
      unfold map_item unbound in ground (arith, e, h)

  resolve_serving-resolved :
      (c : Completeness) (s : ServingState)
      → (resolve_serving input c s).contract ≡ resolved
      → Sole c s
  unfolding resolve_serving
  resolve_serving-resolved c ServingState.unknown h = cc
  resolve_serving-resolved c (ServingState.known []) h = cc
  resolve_serving-resolved c (ServingState.known (i ∷ [])) h =
      let (whole, _, contract) =
        serving-resolved input.latest_attempt c (contract_of (map_item input i ∷ []))
          ((map_item input i).entry ∷ []) h in
      only_one_item c i i.revision refl whole contract
  resolve_serving-resolved c (ServingState.known (i ∷ j ∷ is)) h =
      let entries = map (λ (m : Mapped). m.entry) (map (map_item input) (i ∷ j ∷ is)) in
      let (_, one, _) =
        serving-resolved input.latest_attempt c (contract_of (map (map_item input) (i ∷ j ∷ is)))
          (sort active_before entries) h in
      absurd (omega (arith, length-sort active_before entries))

  pinned :
      (o : Option Observation)
      → input.observation ≡ o
      → (resolve_environment input).contract ≡ resolved
      → (snapshot : Str) × IsPinned input snapshot
  pinned none e h = unfold resolve_environment in ground (arith, e, h)
  pinned (some o) e h =
      let (artifact, r, whole, state, contract) =
        resolve_serving-resolved o.completeness o.serving_state
          (unfold resolve_environment in ground (arith, e, h)) in
      let (id, bound, analysed_id) = map_known-resolved artifact r contract in
      let (b, bs, br) = sole_binding_inv _ r bound in
      let (s, ss, si) = sole_snapshot_inv _ analysed_id in
      (
        id,
        record {
          artifact = artifact;
          revision = r;
          observed = e ∙ (λ k. some (record { completeness = whole k; serving_state = state k }));
          binding = b;
          bound = bs;
          bound_revision = br;
          analysis = s;
          analysed_once = ss;
          pinned = si;
        },
      )

-- An environment has a resolved contract only if it is pinned.
pub resolved-IsPinned :
    (input : Input)
    → (resolve_environment input).contract ≡ resolved
    → (snapshot : Str) × IsPinned input snapshot
resolved-IsPinned input h = pinned input input.observation refl h
