-- ===== src/Updates/Differences/Cancelled.antt =====
-- packages/updates/src/differences.ts, cancelEqualConditions: what it takes away from both sides.
use mathlib.Core.List.{Perm, perm_middle}
use mathlib.Core.List.Perm
use api_truth.Prelude.{
  true, false, ◌&&◌, ◌≡◌, refl, Option, List, [], ◌∷◌, ◌++◌, map, arith, inl, inr, Bool-cases,
}
use api_truth.Prelude.Text.{
  Str, str_eq, str_lt, str_eq_iff, str_lt-total, str_lt_irrefl, str_lt-weak,
}
use api_truth.Prelude.Sets.{has}
use api_truth.Prelude.Sorting.{
  sort, sort-perm, sort-Sorted, Sorted, IsWeakOrder, by_key-IsWeakOrder,
}
use api_truth.Json.{Json}
use api_truth.Updates.Utf8.{utf8}
use api_truth.Updates.Differences.Conditions.{
  Conditions, Remaining, push_before, push_after, condition_text, condition_before,
  cancel_equal_conditions,
}

-- The bytes by which conditions are compared.
abbrev pub key : Option Json → Str
key c = utf8 (condition_text c)

pub condition_order : IsWeakOrder condition_before
unfolding condition_before
condition_order = by_key-IsWeakOrder key

same_key :
    (x y : Option Json)
    → condition_before x y ≡ false
    → condition_before y x ≡ false
    → key x ≡ key y
unfolding condition_before
same_key x y h k = elim (Bool-cases (str_eq (key x) (key y))) [
  | inl e ↦ (str_eq_iff (key x) (key y)).0 e
  | inr e ↦ ground (arith, h, k, str_lt-total (key x) (key y) e)
]

-- A run: the two lists, the keys that are taken away and what remains of each side.
data Cancels : Conditions → Conditions → List Str → Conditions → Conditions → Type 0 where
  no_before : {after : Conditions} → Cancels [] after [] [] after
  no_after : {before : Conditions} → Cancels before [] [] before []
  earlier :
      {x y : Option Json} {before after rb ra : Conditions} {c : List Str}
      → condition_before x y ≡ true
      → Cancels before (y ∷ after) c rb ra
      → Cancels (x ∷ before) (y ∷ after) c (x ∷ rb) ra
  later :
      {x y : Option Json} {before after rb ra : Conditions} {c : List Str}
      → condition_before y x ≡ true
      → Cancels (x ∷ before) after c rb ra
      → Cancels (x ∷ before) (y ∷ after) c rb (y ∷ ra)
  equal :
      {x y : Option Json} {before after rb ra : Conditions} {c : List Str}
      → key x ≡ key y
      → Cancels before after c rb ra
      → Cancels (x ∷ before) (y ∷ after) (key x ∷ c) rb ra

abbrev Run : Conditions → Conditions → Remaining → Type 0
Run before after r = (c : List Str) × Cancels before after c r.before r.after

module _ (x y : Option Json) (before after : Conditions) where
  cancel-earlier :
      condition_before x y ≡ true
      → cancel_equal_conditions (x ∷ before) (y ∷ after)
        ≡ push_before x (cancel_equal_conditions before (y ∷ after))
  unfolding cancel_equal_conditions
  cancel-earlier h = ground (arith, h)

  cancel-later :
      condition_before x y ≡ false
      → condition_before y x ≡ true
      → cancel_equal_conditions (x ∷ before) (y ∷ after)
        ≡ push_after y (cancel_equal_conditions (x ∷ before) after)
  unfolding cancel_equal_conditions
  cancel-later h k = ground (arith, h, k)

  cancel-equal :
      condition_before x y ≡ false
      → condition_before y x ≡ false
      → cancel_equal_conditions (x ∷ before) (y ∷ after) ≡ cancel_equal_conditions before after
  unfolding cancel_equal_conditions
  cancel-equal h k = ground (arith, h, k)

cancel-Run : (before after : Conditions) → Run before after (cancel_equal_conditions before after)
cancel-Run [] after = unfold cancel_equal_conditions in ([], no_before)
cancel-Run (x ∷ before) [] = unfold cancel_equal_conditions in ([], no_after)
cancel-Run (x ∷ before) (y ∷ after) = elim (Bool-cases (condition_before x y)) [
  | inl e ↦
      let r = cancel-Run before (y ∷ after) in
      rw (cancel-earlier x y before after e) (r.0, earlier e r.1)
  | inr e ↦ elim (Bool-cases (condition_before y x)) [
    | inl f ↦
        let r = cancel-Run (x ∷ before) after in
        rw (cancel-later x y before after e f) (r.0, later f r.1)
    | inr f ↦
        let r = cancel-Run before after in
        rw (cancel-equal x y before after e f) (key x ∷ r.0, equal (same_key x y e f) r.1)
  ]
]

Cancels-before :
    {before after : Conditions} {c : List Str} {rb ra : Conditions}
    → Cancels before after c rb ra
    → Perm (c ++ map key rb) (map key before)
Cancels-before no_before = Perm.refl []
Cancels-before (no_after {before}) = Perm.refl (map key before)
Cancels-before (earlier {x} {rb} {c} h r) =
    Perm.trans (perm_middle c (map key rb)) (Perm.cons (key x) (Cancels-before r))
Cancels-before (later h r) = Cancels-before r
Cancels-before (equal {x} e r) = Perm.cons (key x) (Cancels-before r)

Cancels-after :
    {before after : Conditions} {c : List Str} {rb ra : Conditions}
    → Cancels before after c rb ra
    → Perm (c ++ map key ra) (map key after)
Cancels-after (no_before {after}) = Perm.refl (map key after)
Cancels-after no_after = Perm.refl []
Cancels-after (earlier h r) = Cancels-after r
Cancels-after (later {y} {ra} {c} h r) =
    Perm.trans (perm_middle c (map key ra)) (Perm.cons (key y) (Cancels-after r))
Cancels-after (equal {x} e r) = rw (← e) (Perm.cons (key x) (Cancels-after r))

-- What remains was there.
Cancels-has_before :
    {before after : Conditions} {c : List Str} {rb ra : Conditions} (k : Str)
    → Cancels before after c rb ra
    → has k (map key rb) ≡ true
    → has k (map key before) ≡ true
unfolding has
Cancels-has_before k no_before h = h
Cancels-has_before k no_after h = h
Cancels-has_before k (earlier {x} e r) h = ground (arith, h, Cancels-has_before k r)
Cancels-has_before k (later e r) h = Cancels-has_before k r h
Cancels-has_before k (equal {x} e r) h = ground (arith, h, Cancels-has_before k r)

Cancels-has_after :
    {before after : Conditions} {c : List Str} {rb ra : Conditions} (k : Str)
    → Cancels before after c rb ra
    → has k (map key ra) ≡ true
    → has k (map key after) ≡ true
unfolding has
Cancels-has_after k no_before h = h
Cancels-has_after k no_after h = cc
Cancels-has_after k (earlier e r) h = Cancels-has_after k r h
Cancels-has_after k (later {y} e r) h = ground (arith, h, Cancels-has_after k r)
Cancels-has_after k (equal {x} e r) h = ground (arith, h, Cancels-has_after k r)

abbrev SortedConditions : Conditions → Type 0
SortedConditions l = Sorted condition_order l

tail-SortedConditions :
    (x : Option Json) (l : Conditions) → SortedConditions (x ∷ l) → SortedConditions l
tail-SortedConditions x [] s = tt
tail-SortedConditions x (y ∷ l) s = s.1

above_first :
    (y z : Option Json) (l : Conditions)
    → SortedConditions (y ∷ z ∷ l)
    → str_lt (key z) (key y) ≡ false
unfolding condition_before
above_first y z l s = s.0

after_first : (k s t : Str) → str_lt k s ≡ true → str_lt t s ≡ false → str_lt k t ≡ true
after_first k s t h e = elim (Bool-cases (str_lt k t)) [
  | inl f ↦ f
  | inr f ↦ cc (str_lt-weak k t s h f, e)
]

-- What stands before the first of a sorted list is not in it.
below_first :
    (k : Str) (y : Option Json) (l : Conditions)
    → SortedConditions (y ∷ l)
    → str_lt k (key y) ≡ true
    → has k (map key (y ∷ l)) ≡ false
unfolding has
below_first k y [] s h = ground (arith, h, str_eq_iff k (key y), str_lt_irrefl k)
below_first k y (z ∷ l) s h =
    let above : str_lt k (key z) ≡ true = after_first k (key y) (key z) h (above_first y z l s) in
    ground (arith, h, below_first k z l s.1 above, str_eq_iff k (key y), str_lt_irrefl k)

-- No key remains on both sides.
Cancels-apart :
    {before after : Conditions} {c : List Str} {rb ra : Conditions} (k : Str)
    → Cancels before after c rb ra
    → SortedConditions before
    → SortedConditions after
    → has k (map key rb) && has k (map key ra) ≡ false
unfolding has condition_before
Cancels-apart k no_before s t = refl
Cancels-apart k (no_after {before}) s t = ground arith
Cancels-apart k (earlier {x} {y} {before} {after} {rb} {ra} e r) s t =
    let ih = Cancels-apart k r (tail-SortedConditions x before s) t in
    let below = below_first (key x) y after t e in
    ground (arith, ih, below, Cancels-has_after k r, str_eq_iff k (key x))
Cancels-apart k (later {x} {y} {before} {after} {rb} {ra} e r) s t =
    let ih = Cancels-apart k r s (tail-SortedConditions y after t) in
    let below = below_first (key y) x before s e in
    ground (arith, ih, below, Cancels-has_before k r, str_eq_iff k (key y))
Cancels-apart k (equal {x} {y} {before} {after} e r) s t =
    Cancels-apart k r (tail-SortedConditions x before s) (tail-SortedConditions y after t)

abbrev pub remaining_of : Conditions → Conditions → Remaining
remaining_of before after =
    cancel_equal_conditions (sort condition_before before) (sort condition_before after)

-- Sorted and cancelled, two lists lose one list of keys, each key as often on the one side as on the
-- other, and no key that remains on one side remains on the other.
pub cancel_equal_conditions-sort :
    (before after : Conditions)
    → (c : List Str) × Perm (c ++ map key (remaining_of before after).before) (map key before)
      × Perm (c ++ map key (remaining_of before after).after) (map key after)
      × ((k : Str)
          → has k (map key (remaining_of before after).before)
              && has k (map key (remaining_of before after).after)
            ≡ false)
cancel_equal_conditions-sort before after =
    let b = sort condition_before before in
    let a = sort condition_before after in
    let r = cancel-Run b a in
    (
      r.0,
      Perm.trans (Cancels-before r.1) (Perm.map key (sort-perm condition_before before)),
      Perm.trans (Cancels-after r.1) (Perm.map key (sort-perm condition_before after)),
      λ k.
          Cancels-apart k r.1 (sort-Sorted condition_order before)
            (sort-Sorted condition_order after),
    )
