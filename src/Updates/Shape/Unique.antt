-- ===== src/Updates/Shape/Unique.antt =====
-- packages/updates/src/schema.ts: a canonical list has unique items.
use api_truth.Prelude.{
  ◌≡◌, refl, sym, ap, ◌∙◌, true, false, List, [], ◌∷◌, map, all, arith, inl, inr, Bool-cases,
}
use api_truth.Prelude.Text.{Str, str_eq, str_eq_iff, str_lt_irrefl, str_lt_trans}
use api_truth.Prelude.Sets.{has}
use api_truth.Updates.Utf8.{utf8, utf8_before, is_canonical_by, is_canonical_string_set}
use api_truth.Updates.Shape.{has_unique_items}

all_before :
    (a b : Str) (l : List Str)
    → utf8_before a b ≡ true
    → all (utf8_before b) l ≡ true
    → all (utf8_before a) l ≡ true
all_before a b [] h k = refl
all_before a b (c ∷ l) h k =
    ground (arith, h, k, str_lt_trans (utf8 a) (utf8 b) (utf8 c), all_before a b l)

not_among : (k : Str) (l : List Str) → all (utf8_before k) l ≡ true → has k l ≡ false
unfolding has
not_among k [] h = refl
not_among k (x ∷ l) h = elim (Bool-cases (str_eq k x)) [
  | inl e ↦ clash x ((str_eq_iff k x).0 e) (ground (arith, h))
  | inr e ↦ ground (arith, e, h, not_among k l)
]
  where
    clash : (y : Str) → k ≡ y → utf8_before k y ≡ true → has k (x ∷ l) ≡ false
    clash y e f = absurd (cc (e, f, str_lt_irrefl (utf8 k)))

module _ {ℓ} {A : Type ℓ} (key : A → Str) where
  head_first :
      (x : A) (l : List A)
      → is_canonical_by key (x ∷ l) ≡ true
      → all (utf8_before (key x)) (map key l) ≡ true
  unfolding is_canonical_by
  head_first x [] h = refl
  head_first x (y ∷ l) h = ground (arith, h, all_before (key x) (key y) (map key l), head_first y l)

  rest_canonical :
      (x : A) (l : List A) → is_canonical_by key (x ∷ l) ≡ true → is_canonical_by key l ≡ true
  unfolding is_canonical_by
  rest_canonical x [] h = refl
  rest_canonical x (y ∷ l) h = ground (arith, h)

  pub canonical-has_unique_items :
      (l : List A) → is_canonical_by key l ≡ true → has_unique_items (map key l) ≡ true
  unfolding has_unique_items
  canonical-has_unique_items [] h = refl
  canonical-has_unique_items (x ∷ l) h = ground (
    arith,
    not_among (key x) (map key l) (head_first x l h),
    canonical-has_unique_items l (rest_canonical x l h),
  )

map_same : (l : List Str) → map (λ (s : Str). s) l ≡ l
map_same [] = refl
map_same (x ∷ l) = rw (map_same l) refl

pub canonical_set-has_unique_items :
    (l : List Str) → is_canonical_string_set l ≡ true → has_unique_items l ≡ true
unfolding is_canonical_string_set
canonical_set-has_unique_items l h =
    sym (ap has_unique_items (map_same l)) ∙ canonical-has_unique_items (λ (s : Str). s) l h
