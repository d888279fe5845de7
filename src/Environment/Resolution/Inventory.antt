-- ===== src/Environment/Resolution/Inventory.antt =====
-- The order of an inventory does not matter, and the active list is sorted.
use api_truth.Prelude.{
  Bool, ◌||◌, ◌++◌, any, sym, refl, ◌≡◌, ◌≢◌, Option, none, some, List, [], ◌∷◌, arith, map, ap,
}
use api_truth.Prelude.Text.{str_lt_one_way}
use api_truth.Prelude.Sorting.{
  sort, insert, insert_swap, sort-Sorted, by_key-IsWeakOrder, IsWeakOrder, Sorted,
}
use api_truth.Environment.Resolution.{
  Input, Item, Active, Mapped, Attempt, ServingState, Completeness, Contract, active_before,
  map_item, resolve_serving, resolve_observed, Observation, serving, contract_of,
  resolve_environment,
}

pub active_order : IsWeakOrder active_before
active_order = by_key-IsWeakOrder (λ (a : Active). a.artifact_id)

artifact-map_item :
    (input : Input) (i : Item) → (map_item input i).entry.artifact_id ≡ i.artifact_id
unfolding map_item
artifact-map_item input i = ground arith

abbrev entries : Input → List Item → List Active
entries input is = map (λ (m : Mapped). m.entry) (map (map_item input) is)

serving-active :
    (attempt : Option Attempt) (c : Completeness) (contract : Contract) (active : List Active)
    → (serving attempt c contract active).active ≡ active
unfolding serving
serving-active attempt c contract active = ground arith

entries_swap :
    (input : Input) (i j : Item) (is : List Item)
    → i.artifact_id ≢ j.artifact_id
    → sort active_before (entries input (i ∷ j ∷ is))
      ≡ sort active_before (entries input (j ∷ i ∷ is))
unfolding sort
entries_swap input i j is h =
    insert_swap active_order (map_item input i).entry (map_item input j).entry
      (sort active_before (entries input is))
      (rw (artifact-map_item, artifact-map_item) (str_lt_one_way i.artifact_id j.artifact_id h))

entries_swap_behind :
    (input : Input) (hs : List Item) (i j : Item) (is : List Item)
    → i.artifact_id ≢ j.artifact_id
    → sort active_before (entries input (hs ++ i ∷ j ∷ is))
      ≡ sort active_before (entries input (hs ++ j ∷ i ∷ is))
unfolding sort
entries_swap_behind input [] i j is h = entries_swap input i j is h
entries_swap_behind input (x ∷ hs) i j is h =
    ap (insert active_before (map_item input x).entry) (entries_swap_behind input hs i j is h)

abbrev mapped : Input → List Item → List Mapped
mapped input is = map (map_item input) is

flags_swap :
    (input : Input) (flag : Mapped → Bool) (hs : List Item) (i j : Item) (is : List Item)
    → any flag (mapped input (hs ++ i ∷ j ∷ is)) ≡ any flag (mapped input (hs ++ j ∷ i ∷ is))
flags_swap input flag [] i j is = ground arith
flags_swap input flag (x ∷ hs) i j is =
    ap (λ b. flag (map_item input x) || b) (flags_swap input flag hs i j is)

contract_swap :
    (input : Input) (hs : List Item) (i j : Item) (is : List Item)
    → contract_of (mapped input (hs ++ i ∷ j ∷ is)) ≡ contract_of (mapped input (hs ++ j ∷ i ∷ is))
contract_swap input hs i j is =
    rw
      (
        flags_swap input (λ m. m.missing_binding) hs i j is,
        flags_swap input (λ m. m.missing_analysis) hs i j is,
      )
      refl

abbrev pub observing : Input → Completeness → List Item → Input
observing input c is = record input {
  observation = some (record { completeness = c; serving_state = ServingState.known is });
}

serving_known :
    (input : Input) (c : Completeness) (hs : List Item) (i : Item) (is : List Item)
    → resolve_environment (observing input c (hs ++ i ∷ is))
      ≡ serving input.latest_attempt c
          (contract_of (mapped input (hs ++ i ∷ is)))
          (sort active_before (entries input (hs ++ i ∷ is)))
unfolding resolve_environment
serving_known input c [] i is = refl
serving_known input c (x ∷ hs) i is = refl

-- Any two neighbours of the inventory with different artifact ids can be exchanged: nothing of the
-- resolution changes.
pub resolve_environment_swap :
    (input : Input) (c : Completeness) (hs : List Item) (i j : Item) (is : List Item)
    → i.artifact_id ≢ j.artifact_id
    → resolve_environment (observing input c (hs ++ i ∷ j ∷ is))
      ≡ resolve_environment (observing input c (hs ++ j ∷ i ∷ is))
resolve_environment_swap input c hs i j is h =
    rw
      (
        serving_known input c hs i (j ∷ is),
        entries_swap_behind input hs i j is h,
        contract_swap input hs i j is,
      )
      (sym (serving_known input c hs j (i ∷ is)))

Sorted-serving :
    (input : Input) (c : Completeness) (s : ServingState)
    → Sorted active_order (resolve_serving input c s).active
unfolding resolve_serving
Sorted-serving input c ServingState.unknown = tt
Sorted-serving input c (ServingState.known []) = tt
Sorted-serving input c (ServingState.known (i ∷ is)) =
    rw
      (serving-active input.latest_attempt c (contract_of (map (map_item input) (i ∷ is)))
        (sort active_before (entries input (i ∷ is))))
      (sort-Sorted active_order (entries input (i ∷ is)))

Sorted-observed :
    (input : Input) (o : Option Observation) → Sorted active_order (resolve_observed input o).active
unfolding resolve_observed
Sorted-observed input none = tt
Sorted-observed input (some o) = Sorted-serving input o.completeness o.serving_state

-- The active list of a resolution is sorted by artifact id.
pub resolve_environment-Sorted :
    (input : Input) → Sorted active_order (resolve_environment input).active
unfolding resolve_environment
resolve_environment-Sorted input = Sorted-observed input input.observation
