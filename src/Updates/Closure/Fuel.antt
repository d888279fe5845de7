-- ===== src/Updates/Closure/Fuel.antt =====
-- The closure always has a result.
use api_truth.Prelude.{
  ℕ, zero, suc, ◌+◌, ◌≤◌, ◌<◌, ◌≡◌, refl, false, Option, some, List, [], ◌∷◌, if◌then◌else◌, length,
  arith, Bool-cases, Option-cases, inl, inr,
}
use api_truth.Prelude.Text.{Str, str_eq_iff}
use api_truth.Prelude.Sets.{has, add, has-add, lookup}
use api_truth.Updates.Snapshot.{SchemaComponent}
use api_truth.Updates.Closure.{Components, closure_from, push_fresh, references, component_closure}

-- How many components are not reached.
unvisited : Components → List Str → ℕ
unvisited [] reached = 0
unvisited ((k, c) ∷ m) reached = (if has k reached then 0 else 1) + unvisited m reached

unvisited-add :
    (m : Components) (id : Str) (reached : List Str)
    → unvisited m (add id reached) ≤ unvisited m reached
unfolding unvisited
unvisited-add [] id reached = omega arith
unvisited-add ((k, c) ∷ m) id reached =
    ground (arith, has-add k id reached, unvisited-add m id reached)

unvisited-add_new :
    (m : Components) (id : Str) (reached : List Str) (c : SchemaComponent)
    → lookup id m ≡ some c
    → has id reached ≡ false
    → unvisited m (add id reached) < unvisited m reached
unfolding unvisited lookup
unvisited-add_new [] id reached c h new = cc
unvisited-add_new ((k, d) ∷ m) id reached c h new = ground (
  arith,
  has-add k id reached,
  str_eq_iff id k,
  str_eq_iff k id,
  unvisited-add m id reached,
  unvisited-add_new m id reached c,
)

unvisited-le : (m : Components) (reached : List Str) → unvisited m reached ≤ length m
unfolding unvisited
unvisited-le [] reached = omega arith
unvisited-le ((k, c) ∷ m) reached = ground (arith, unvisited-le m reached)

abbrev IsDone : Option (List Str) → Type 0
IsDone r = (s : List Str) × (r ≡ some s)

closure_from-IsDone :
    (schemas : Components) (n : ℕ) (pending reached : List Str)
    → unvisited schemas reached ≤ n
    → IsDone (closure_from schemas n pending reached)
unfolding closure_from
closure_from-IsDone schemas n [] reached h = (reached, refl)
closure_from-IsDone schemas zero (id ∷ pending) reached h = elim (Bool-cases (has id reached)) [
  | inl old ↦ rw old (closure_from-IsDone schemas zero pending reached h)
  | inr new ↦ rw new (elim (Option-cases (lookup id schemas)) [
    | inl missing ↦ rw missing (closure_from-IsDone schemas zero pending reached h)
    | inr (c, found) ↦ absurd (omega (arith, unvisited-add_new schemas id reached c found new))
  ])
]
closure_from-IsDone schemas (suc n) (id ∷ pending) reached h = elim (Bool-cases (has id reached)) [
  | inl old ↦ rw old (closure_from-IsDone schemas (suc n) pending reached h)
  | inr new ↦ rw new (elim (Option-cases (lookup id schemas)) [
    | inl missing ↦ rw missing (closure_from-IsDone schemas (suc n) pending reached h)
    | inr (c, found) ↦ rw found (
        closure_from-IsDone schemas n (push_fresh (add id reached) (references c) pending)
          (add id reached) (omega (arith, unvisited-add_new schemas id reached c found new)))
  ])
]

-- For every schemas and every initial ids the closure has a result.
pub component_closure_total :
    (schemas : Components) (initial : List Str)
    → (reached : List Str) × (component_closure schemas initial ≡ some reached)
unfolding component_closure
component_closure_total schemas initial =
    closure_from-IsDone schemas (length schemas) (push_fresh [] initial []) []
      (unvisited-le schemas [])
