-- ===== src/Environment/Ordering/Observations.antt =====
-- What the classification of serving observations means, in the numbers of their orders.
use api_truth.Prelude.{
  sym, ◌∙◌, ◌&&◌, ◌++◌, inl, inr, Bool-cases, ℕ, ◌≡◌, ◌≢◌, refl, Bool, true, some, List, ◌∷◌, arith,
  ltb, if◌then◌else◌,
}
use api_truth.Prelude.Text.{Str, lit, str_eq, str_eq_iff, str_eq_refl, str_lt_one_way}
use api_truth.Prelude.Sorting.{sort, insert_swap, IsWeakOrder, by_key-IsWeakOrder}
use api_truth.Orchestration.Canonical.{serialize}
use api_truth.Orchestration.Ordering.{is_canonical_decimal}
use api_truth.Orchestration.Ordering.Decimal.{value, compare_numbers, compare_decimal-eq}
use api_truth.Environment.Ordering.{
  InventoryItem, known, Observation, Verdict, apply, stale, replay, reconcile, item_before,
  serving_json, state_json, state_hash, same_observation, by_order, same_subject, comparable,
  against, classify_serving_observation,
}

-- The expected answer for two comparable observations, `same` if they agree.
unfoldable pub expected : (n m : ℕ) (same : Bool) → Verdict
expected n m same =
    if ltb n m then apply else if ltb m n then stale else if same then replay else reconcile

module _ (sha256 : Str → Str) where
  hash_found :
      (o : Observation) (s : Str)
      → serialize (state_json o) ≡ some s
      → state_hash sha256 o ≡ some (lit "sha256:" ++ sha256 s)
  unfolding state_hash
  hash_found o s h = rw h refl

  same_texts :
      (s t : Str)
      → (sha256 s ≡ sha256 t → s ≡ t)
      → str_eq (lit "sha256:" ++ sha256 s) (lit "sha256:" ++ sha256 t) ≡ str_eq s t
  unfolding str_eq
  same_texts s t h = elim (Bool-cases (str_eq s t)) [
    | inl e ↦ rw ((str_eq_iff s t).0 e) (str_eq_refl (sha256 t) ∙ sym (str_eq_refl t))
    | inr e ↦ elim (Bool-cases (str_eq (sha256 s) (sha256 t))) [
      | inl f ↦ absurd (cc (e, (str_eq_iff s t).1 (h ((str_eq_iff (sha256 s) (sha256 t)).0 f))))
      | inr f ↦ f ∙ sym e
    ]
  ]

  same_observation-eq :
      (current incoming : Observation) (s t : Str)
      → serialize (state_json current) ≡ some s
      → serialize (state_json incoming) ≡ some t
      → (sha256 s ≡ sha256 t → s ≡ t)
      → same_observation sha256 current incoming
        ≡ some (str_eq current.reference incoming.reference && str_eq s t)
  unfolding same_observation
  same_observation-eq current incoming s t left right h =
      ground (arith, hash_found current s left, hash_found incoming t right, same_texts s t h)

-- The verdict, given the answer of the last test.
classify-expected :
    (sha256 : Str → Str) (current incoming : Observation) {same : Bool}
    → same_subject sha256 current incoming ≡ true
    → comparable sha256 current incoming ≡ true
    → is_canonical_decimal incoming.effective_order ≡ true
    → same_observation sha256 current incoming ≡ some same
    → classify_serving_observation sha256 (some current) incoming
      ≡ some (expected (value current.effective_order) (value incoming.effective_order) same)
unfolding classify_serving_observation against by_order compare_numbers expected
classify-expected sha256 current incoming subject fits canonical agree = ground (
  arith,
  subject,
  fits,
  canonical,
  agree,
  compare_decimal-eq current.effective_order incoming.effective_order,
)

-- Two observations of one subject, provider and authority, with canonical orders, whose states have
-- canonical texts that the digest tells apart: the incoming one is applied if its order's number is
-- larger, stale if it is smaller, and else a replay if the references and the texts are the same, and
-- to be reconciled if not.
pub classify_serving_observation-eq :
    (sha256 : Str → Str) (current incoming : Observation) (s t : Str)
    → same_subject sha256 current incoming ≡ true
    → comparable sha256 current incoming ≡ true
    → is_canonical_decimal incoming.effective_order ≡ true
    → serialize (state_json current) ≡ some s
    → serialize (state_json incoming) ≡ some t
    → (sha256 s ≡ sha256 t → s ≡ t)
    → classify_serving_observation sha256 (some current) incoming
      ≡ some (
          expected
            (value current.effective_order)
            (value incoming.effective_order)
            (str_eq current.reference incoming.reference && str_eq s t))
classify_serving_observation-eq sha256 current incoming s t subject fits canonical left right h =
    classify-expected sha256 current incoming subject fits canonical
      (same_observation-eq sha256 current incoming s t left right h)

items_order : IsWeakOrder item_before
items_order = by_key-IsWeakOrder (λ (i : InventoryItem). i.artifact_id)

inventory_swap :
    (i j : InventoryItem) (is : List InventoryItem)
    → i.artifact_id ≢ j.artifact_id
    → sort item_before (i ∷ j ∷ is) ≡ sort item_before (j ∷ i ∷ is)
unfolding sort
inventory_swap i j is h =
    insert_swap items_order i j (sort item_before is) (str_lt_one_way i.artifact_id j.artifact_id h)

-- Two neighbours of the inventory with different artifact ids can be exchanged: the state's hash
-- stays.
pub state_hash_swap :
    (sha256 : Str → Str) (o : Observation) (i j : InventoryItem) (is : List InventoryItem)
    → i.artifact_id ≢ j.artifact_id
    → state_hash sha256 (record o { serving_state = known (i ∷ j ∷ is) })
      ≡ state_hash sha256 (record o { serving_state = known (j ∷ i ∷ is) })
unfolding state_hash state_json serving_json
state_hash_swap sha256 o i j is h = rw (inventory_swap i j is h) refl
