-- ===== src/Prelude/Sorting.antt =====
-- Array.prototype.sort: a stable sort by a strict test.
use mathlib.Core.Path.{◌≡◌, refl}
use mathlib.Core.Bool.{Bool, true, false, ◌||◌}
use mathlib.Core.List.{List, [], ◌∷◌}
use mathlib.Core.Bool.{not}
use mathlib.Core.Logic.{inl, inr}
use mathlib.Core.List.{Perm}
use mathlib.Core.List.Perm
use native.Mathlib.Omega.{arith}
use Prim.Native.Nat.{suc}
use api_truth.Prelude.Lists.{length}
use api_truth.Prelude.Tests.{if◌then◌else◌, Bool-cases}
use api_truth.Prelude.Sets.{has}
use api_truth.Prelude.Text.{Str, str_eq, str_lt, str_lt_irrefl, str_lt_trans, str_lt-weak}

module _ {ℓ} {A : Type ℓ} (before : A → A → Bool) where
  -- `x` stands before every later element that is not strictly before it
  unfoldable pub insert : A → List A → List A
  insert x [] = x ∷ []
  insert x (y ∷ ys) = let rest = insert x ys in if before y x then y ∷ rest else x ∷ y ∷ ys

  unfoldable pub sort : List A → List A
  unfolding insert
  sort [] = []
  sort (x ∷ xs) = insert x (sort xs)

-- What the source's comparison functions are: nothing is before what is before it, and what is not
-- after an element is before whatever that element is before.
pub record IsWeakOrder {ℓ} {A : Type ℓ} (before : A → A → Bool) : Type ℓ where
  pub asym : (a b : A) → before a b ≡ true → before b a ≡ false
  pub weak : (a b c : A) → before a c ≡ true → before a b ≡ false → before b c ≡ true

module _ {ℓ} {A : Type ℓ} {before : A → A → Bool} (order : IsWeakOrder before) where
  -- Two elements that the test tells apart can be inserted in either order.
  pub insert_swap :
      (x y : A) (l : List A)
      → before x y ≡ not (before y x)
      → insert before x (insert before y l) ≡ insert before y (insert before x l)
  unfolding insert
  insert_swap x y [] h = ground (arith, h)
  insert_swap x y (z ∷ l) h =
      ground (arith, h, order.weak z x y, order.weak z y x, insert_swap x y l h)

  abbrev pub Sorted : List A → Type 0
  Sorted [] = Unit
  Sorted (x ∷ []) = Unit
  Sorted (x ∷ y ∷ l) = (before y x ≡ false) × Sorted (y ∷ l)

  insert-Sorted : (x : A) (l : List A) → Sorted l → Sorted (insert before x l)
  unfolding insert
  insert-Sorted x [] s = tt
  insert-Sorted x (y ∷ []) s = ground (arith, order.asym y x)
  insert-Sorted x (y ∷ z ∷ l) s = ground (arith, order.asym y x, insert-Sorted x (z ∷ l) s.1)

  pub sort-Sorted : (l : List A) → Sorted (sort before l)
  unfolding sort
  sort-Sorted [] = tt
  sort-Sorted (x ∷ l) = insert-Sorted x (sort before l) (sort-Sorted l)

module _ {ℓ} {A : Type ℓ} (before : A → A → Bool) where
  insert-perm : (x : A) (l : List A) → Perm (insert before x l) (x ∷ l)
  unfolding insert
  insert-perm x [] = Perm.refl (x ∷ [])
  insert-perm x (y ∷ l) = elim (Bool-cases (before y x)) [
    | inl e ↦ rw e (Perm.trans (Perm.cons y (insert-perm x l)) (Perm.swap x y l))
    | inr e ↦ rw e (Perm.refl (x ∷ y ∷ l))
  ]

  length-insert : (x : A) (l : List A) → length (insert before x l) ≡ suc (length l)
  unfolding insert
  length-insert x [] = refl
  length-insert x (y ∷ l) = ground (arith, length-insert x l)

  pub length-sort : (l : List A) → length (sort before l) ≡ length l
  unfolding sort
  length-sort [] = refl
  length-sort (x ∷ l) = omega (arith, length-insert x (sort before l), length-sort l)

  pub sort-perm : (l : List A) → Perm (sort before l) l
  unfolding sort
  sort-perm [] = Perm.refl []
  sort-perm (x ∷ l) = Perm.trans (insert-perm x (sort before l)) (Perm.cons x (sort-perm l))

str_lt-asym : (s t : Str) → str_lt s t ≡ true → str_lt t s ≡ false
str_lt-asym s t h = elim (Bool-cases (str_lt t s)) [
  | inl back ↦ cc (str_lt_trans s t s h back, str_lt_irrefl s)
  | inr e ↦ e
]

-- (left, right) => left.key < right.key ? -1 : left.key > right.key ? 1 : 0
pub by_key-IsWeakOrder {ℓ} :
    {A : Type ℓ} (key : A → Str) → IsWeakOrder (λ (a b : A). str_lt (key a) (key b))
by_key-IsWeakOrder key = record {
  asym = λ a b. str_lt-asym (key a) (key b);
  weak = λ a b c. str_lt-weak (key a) (key b) (key c);
}

has-insert :
    (before : Str → Str → Bool) (x y : Str) (l : List Str)
    → has x (insert before y l) ≡ (str_eq x y || has x l)
unfolding insert has
has-insert before x y [] = refl
has-insert before x y (z ∷ l) = ground (arith, has-insert before x y l)

-- Sorting keeps the members.
pub has-sort :
    (before : Str → Str → Bool) (x : Str) (l : List Str) → has x (sort before l) ≡ has x l
unfolding sort has
has-sort before x [] = refl
has-sort before x (y ∷ l) =
    rw (has-insert before x y (sort before l)) (rw (has-sort before x l) refl)
