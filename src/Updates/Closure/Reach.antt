-- ===== src/Updates/Closure/Reach.antt =====
-- The closure against reachability.
use api_truth.Prelude.{
  subst, ℕ, zero, suc, ◌≡◌, refl, Bool, true, false, not, ◌&&◌, ◌||◌, none, some, List, [], ◌∷◌,
  ◌⊎◌, inl, inr, ◌↔◌, if◌then◌else◌, length, arith, Bool-cases, Option-cases, ◌∙◌,
}
use api_truth.Prelude.Text.{Str, str_eq, str_eq_iff, str_eq_refl}
use api_truth.Prelude.Sets.{has, add, has-add, lookup}
use api_truth.Updates.Snapshot.{SchemaComponent}
use api_truth.Updates.References.Collected.{refers, has-collect_lem}
use api_truth.Updates.Closure.{Components, closure_from, push_fresh, references, component_closure}
use api_truth.Updates.Closure.Fuel.{component_closure_total}

has-references : (c : SchemaComponent) (y : Str) → has y (references c) ≡ refers c.schema y
unfolding references
has-references c y = has-collect_lem c.schema y [] ∙ (unfold has in or-false (refers c.schema y))
  where
    or-false : (b : Bool) → (b || false) ≡ b
    or-false true = refl
    or-false false = refl

has-push_fresh :
    (reached rs pending : List Str) (y : Str)
    → has y (push_fresh reached rs pending) ≡ ((has y rs && not (has y reached)) || has y pending)
unfolding push_fresh has
has-push_fresh reached [] pending y = refl
has-push_fresh reached (r ∷ rs) pending y = ground (
  arith,
  has-push_fresh reached rs (if has r reached then pending else r ∷ pending) y,
  str_eq_iff y r,
)

none-ne-some : {r : List Str} → none ≡ some r → ⊥
none-ne-some h = cc

some-eq : (s r : List Str) → some s ≡ some r → s ≡ r
some-eq s r h = cc

has-head : (x : Str) (l : List Str) → has x (x ∷ l) ≡ true
unfolding has
has-head x l = ground (arith, str_eq_refl x)

module _ (schemas : Components) (initial : List Str) where
  -- `x` is an initial id, or a component that is reached refers to it.
  pub data Named : Str → Type 0 where
    root : {x : Str} → has x initial ≡ true → Named x
    step :
        {x y : Str} {c : SchemaComponent}
        → Named x
        → lookup x schemas ≡ some c
        → refers c.schema y ≡ true
        → Named y

  -- A named id that is a component.
  abbrev pub Reached : Str → Type 0
  Reached x = (c : SchemaComponent) × (lookup x schemas ≡ some c) × Named x

  abbrev AllNamed : List Str → Type 0
  AllNamed l = (x : Str) → has x l ≡ true → Named x

  abbrev AllReached : List Str → Type 0
  AllReached l = (x : Str) → has x l ≡ true → Reached x

  AllNamed-tail : (id : Str) (pending : List Str) → AllNamed (id ∷ pending) → AllNamed pending
  unfolding has
  AllNamed-tail id pending named x h = named x (ground (arith, h))

  AllNamed-push :
      (id : Str) (pending reached : List Str) (c : SchemaComponent)
      → lookup id schemas ≡ some c
      → AllNamed (id ∷ pending)
      → AllNamed (push_fresh (add id reached) (references c) pending)
  AllNamed-push id pending reached c found named x h = elim (Bool-cases (refers c.schema x)) [
    | inl yes' ↦ step (named id (has-head id pending)) found yes'
    | inr no' ↦ named x (
        unfold has in
        ground
          (arith, has-push_fresh (add id reached) (references c) pending x, has-references c x, h))
  ]

  AllReached-add :
      (id : Str) (reached : List Str)
      → Reached id
      → AllReached reached
      → AllReached (add id reached)
  AllReached-add id reached r all x h = elim (Bool-cases (str_eq x id)) [
    | inl same ↦ rw ((str_eq_iff x id).0 same) r
    | inr other ↦ all x (ground (arith, has-add x id reached))
  ]

  closure_from_sound :
      (n : ℕ) (pending reached : List Str) {r : List Str}
      → AllNamed pending
      → AllReached reached
      → closure_from schemas n pending reached ≡ some r
      → AllReached r
  unfolding closure_from
  closure_from_sound n [] reached {r} named all h =
      subst (λ (l : List Str). AllReached l) (some-eq reached r h) all
  closure_from_sound zero (id ∷ pending) reached named all h =
      let rest = AllNamed-tail id pending named in
      elim (Bool-cases (has id reached)) [
        | inl old ↦ closure_from_sound zero pending reached rest all (rw old at h)
        | inr new ↦ elim (Option-cases (lookup id schemas)) [
          | inl missing ↦ closure_from_sound zero pending reached rest all (rw (new, missing) at h)
          | inr (c, found) ↦ λ x k. absurd (none-ne-some (rw (new, found) at h))
        ]
      ]
  closure_from_sound (suc n) (id ∷ pending) reached named all h =
      let rest = AllNamed-tail id pending named in
      elim (Bool-cases (has id reached)) [
        | inl old ↦ closure_from_sound (suc n) pending reached rest all (rw old at h)
        | inr new ↦ elim (Option-cases (lookup id schemas)) [
          | inl missing ↦
              closure_from_sound (suc n) pending reached rest all (rw (new, missing) at h)
          | inr (c, found) ↦
              closure_from_sound n (push_fresh (add id reached) (references c) pending)
                (add id reached) (AllNamed-push id pending reached c found named)
                (AllReached-add id reached (c, found, named id (has-head id pending)) all)
                (rw (new, found) at h)
        ]
      ]

  -- What must be reached once `reached` is.
  abbrev Required : List Str → Str → Type 0
  Required reached y =
      (has y initial ≡ true)
      ⊎ ((x : Str) × (c : SchemaComponent) × (has x reached ≡ true)
          × (lookup x schemas ≡ some c)
          × (refers c.schema y ≡ true))

  -- What is reached, or waits, or is no component.
  abbrev Covered : List Str → List Str → Str → Type 0
  Covered pending reached y = (lookup y schemas ≡ none) ⊎ ((has y reached || has y pending) ≡ true)

  abbrev Keeps : List Str → List Str → Type 0
  Keeps pending reached = (y : Str) → Required reached y → Covered pending reached y

  Keeps-skip :
      (id : Str) (pending reached : List Str)
      → has id reached ≡ true
      → Keeps (id ∷ pending) reached
      → Keeps pending reached
  unfolding has
  Keeps-skip id pending reached old keeps y need =
      ground (arith, keeps y need, str_eq_iff y id, old)

  Keeps-missing :
      (id : Str) (pending reached : List Str)
      → lookup id schemas ≡ none
      → Keeps (id ∷ pending) reached
      → Keeps pending reached
  unfolding has
  Keeps-missing id pending reached missing keeps y need =
      ground (arith, keeps y need, str_eq_iff y id, missing)

  Covered-visit :
      (id : Str) (pending reached : List Str) (c : SchemaComponent) (y : Str)
      → Covered (id ∷ pending) reached y
      → Covered (push_fresh (add id reached) (references c) pending) (add id reached) y
  unfolding has
  Covered-visit id pending reached c y covered = ground (
    arith,
    covered,
    has-add y id reached,
    has-push_fresh (add id reached) (references c) pending y,
  )

  Covered-referred :
      (id : Str) (pending reached : List Str) (c : SchemaComponent) (y : Str)
      → refers c.schema y ≡ true
      → Covered (push_fresh (add id reached) (references c) pending) (add id reached) y
  Covered-referred id pending reached c y r = inr (
      ground
        (arith, r, has-push_fresh (add id reached) (references c) pending y, has-references c y))

  Keeps-visit :
      (id : Str) (pending reached : List Str) (c : SchemaComponent)
      → lookup id schemas ≡ some c
      → Keeps (id ∷ pending) reached
      → Keeps (push_fresh (add id reached) (references c) pending) (add id reached)
  Keeps-visit id pending reached c found keeps y (inl start) =
      Covered-visit id pending reached c y (keeps y (inl start))
  Keeps-visit id pending reached c found keeps y (inr (x, d, hx, dx, r)) =
      elim (Bool-cases (str_eq x id)) [
        | inl same ↦
            Covered-referred id pending reached c y
              (ground (arith, r, dx, found, str_eq_iff x id, same))
        | inr other ↦
            Covered-visit id pending reached c y
              (keeps y (inr (x, d, ground (arith, hx, has-add x id reached), dx, r)))
      ]

  closure_from_complete :
      (n : ℕ) (pending reached : List Str) {r : List Str}
      → Keeps pending reached
      → closure_from schemas n pending reached ≡ some r
      → Keeps [] r
  unfolding closure_from
  closure_from_complete n [] reached {r} keeps h =
      subst (λ (l : List Str). Keeps [] l) (some-eq reached r h) keeps
  closure_from_complete zero (id ∷ pending) reached keeps h = elim (Bool-cases (has id reached)) [
    | inl old ↦
        closure_from_complete zero pending reached (Keeps-skip id pending reached old keeps)
          (rw old at h)
    | inr new ↦ elim (Option-cases (lookup id schemas)) [
      | inl missing ↦
          closure_from_complete zero pending reached
            (Keeps-missing id pending reached missing keeps) (rw (new, missing) at h)
      | inr (c, found) ↦ λ y need. absurd (none-ne-some (rw (new, found) at h))
    ]
  ]
  closure_from_complete (suc n) (id ∷ pending) reached keeps h =
      elim (Bool-cases (has id reached)) [
        | inl old ↦
            closure_from_complete (suc n) pending reached (Keeps-skip id pending reached old keeps)
              (rw old at h)
        | inr new ↦ elim (Option-cases (lookup id schemas)) [
          | inl missing ↦
              closure_from_complete (suc n) pending reached
                (Keeps-missing id pending reached missing keeps) (rw (new, missing) at h)
          | inr (c, found) ↦
              closure_from_complete n (push_fresh (add id reached) (references c) pending)
                (add id reached) (Keeps-visit id pending reached c found keeps)
                (rw (new, found) at h)
        ]
      ]

  closed_complete :
      (r : List Str)
      → Keeps [] r
      → (x : Str) (c : SchemaComponent) → lookup x schemas ≡ some c
      → Named x
      → has x r ≡ true
  unfolding has
  closed_complete r keeps x c found (root start) = ground (arith, keeps x (inl start), found)
  closed_complete r keeps x c found (step {x = w} {c = d} named there refer) =
      ground
        (arith, keeps x (inr (w, d, closed_complete r keeps w d there named, there, refer)), found)

  Keeps-start : Keeps (push_fresh [] initial []) []
  unfolding has
  Keeps-start y (inl start) = inr (ground (arith, start, has-push_fresh [] initial [] y))
  Keeps-start y (inr (x, c, hx, dx, r)) = cc

-- The closure has a result, and an id is in it exactly if it is a component that the initial ids
-- name, directly or through the references of components that they name.
pub component_closure-Reached :
    (schemas : Components) (initial : List Str)
    → (r : List Str) × (component_closure schemas initial ≡ some r)
      × ((x : Str) → (has x r ≡ true) ↔ Reached schemas initial x)
unfolding component_closure
component_closure-Reached schemas initial =
    let (r, done) = component_closure_total schemas initial in
    (
      r,
      done,
      λ x. (
        closure_from_sound schemas initial (length schemas) (push_fresh [] initial []) []
            (λ y h. root (ground (arith, h, has-push_fresh [] initial [] y))) (λ y h. cc) done x,
        λ (c, found, named).
            closed_complete schemas initial r
              (closure_from_complete schemas initial (length schemas) (push_fresh [] initial []) []
                (Keeps-start schemas initial) done)
              x c found named,
      ),
    )
