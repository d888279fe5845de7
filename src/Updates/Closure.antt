-- ===== src/Updates/Closure.antt =====
-- packages/updates/src/planner.ts, componentClosure: the components that are reached from some ids.
-- The array `pending` is a stack with its top at the head. The fuel counts visits: each one adds a
-- component that was not reached, so the number of components is enough.
pub mod Fuel
pub mod Reach
use api_truth.Prelude.{
  ℕ, zero, suc, Bool, true, false, Option, none, some, List, [], ◌∷◌, if◌then◌else◌, length,
}
use api_truth.Prelude.Text.{Str}
use api_truth.Prelude.Sets.{has, add, lookup}
use api_truth.Updates.Snapshot.{SchemaComponent}
use api_truth.Updates.References.{collect}

abbrev pub Components : Type 0
Components = List (Str × SchemaComponent)

-- for (const reference of references) if (!reached.has(reference)) pending.push(reference)
push_fresh : List Str → List Str → List Str → List Str
push_fresh reached [] pending = pending
push_fresh reached (r ∷ rs) pending =
    push_fresh reached rs (if has r reached then pending else r ∷ pending)

references : SchemaComponent → List Str
references c = collect c.schema []

module _ (schemas : Components) where
  closure_from : ℕ → List Str → List Str → Option (List Str)
  closure_from n [] reached = some reached
  closure_from zero (id ∷ pending) reached =
      let skip = closure_from zero pending reached in
      if has id reached then skip else elim (lookup id schemas) [ none ↦ skip | some c ↦ none ]
  closure_from (suc n) (id ∷ pending) reached =
      let skip = closure_from (suc n) pending reached in
      if has id reached then skip else elim (lookup id schemas) [
        | none ↦ skip
        | some c ↦
            closure_from n (push_fresh (add id reached) (references c) pending) (add id reached)
      ]

  unfoldable pub component_closure : List Str → Option (List Str)
  unfolding closure_from push_fresh references has add lookup collect
  component_closure initial = closure_from (length schemas) (push_fresh [] initial []) []
