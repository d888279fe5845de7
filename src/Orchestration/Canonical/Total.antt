-- ===== src/Orchestration/Canonical/Total.antt =====
-- Which values have a canonical text.
use api_truth.Prelude.{
  ◌≡◌, refl, Bool, true, false, ◌&&◌, Option, none, some, List, [], ◌∷◌, arith, Option-cases, inl,
  inr,
}
use api_truth.Prelude.Text.{Str}
use api_truth.Json.{
  Json, Items, Fields, null, exotic, boolean, number, str, arr, obj, nil, cons, end, field, items,
}
use api_truth.Orchestration.Canonical.{serialize, serialize_items, serialize_fields}

-- Nothing in the value is exotic or a number that is not finite.
unfoldable mutual
  pub plain : Json → Bool
  plain null = true
  plain exotic = false
  plain (boolean b) = true
  plain (number n) = n.finite
  plain (str s) = true
  plain (arr xs) = plain_items xs
  plain (obj fs) = plain_fields fs

  pub plain_items : Items → Bool
  plain_items nil = true
  plain_items (cons x xs) = plain x && plain_items xs

  pub plain_fields : Fields → Bool
  plain_fields end = true
  plain_fields (field k v fs) = plain v && plain_fields fs

abbrev pub is_some {ℓ} : {A : Type ℓ} → Option A → Bool
is_some none = false
is_some (some a) = true

mutual
  unfolding serialize plain

  serialize-is_some : (v : Json) → is_some (serialize v) ≡ plain v
  serialize-is_some null = refl
  serialize-is_some exotic = refl
  serialize-is_some (boolean b) = refl
  serialize-is_some (number n) = ground arith
  serialize-is_some (str s) = refl
  serialize-is_some (arr xs) = ground (arith, serialize_items-is_some xs)
  serialize-is_some (obj fs) = ground (arith, serialize_fields-is_some fs)

  serialize_items-is_some : (xs : Items) → is_some (serialize_items xs) ≡ plain_items xs
  serialize_items-is_some nil = refl
  serialize_items-is_some (cons x xs) =
      ground (arith, serialize-is_some x, serialize_items-is_some xs)

  serialize_fields-is_some : (fs : Fields) → is_some (serialize_fields fs) ≡ plain_fields fs
  serialize_fields-is_some end = refl
  serialize_fields-is_some (field k v fs) =
      ground (arith, serialize-is_some v, serialize_fields-is_some fs)

-- A value has a canonical text exactly if nothing in it is exotic or a number that is not finite.
pub serialize-plain : (v : Json) → is_some (serialize v) ≡ plain v
serialize-plain v = serialize-is_some v

pub serialize_total : (v : Json) → plain v ≡ true → (text : Str) × (serialize v ≡ some text)
serialize_total v h = elim (Option-cases (serialize v)) [
  | inl e ↦ absurd (ground (arith, e, h, serialize-plain v))
  | inr found ↦ found
]

pub plain_items-items : (l : List Str) → plain_items (items l) ≡ true
unfolding plain items
plain_items-items [] = refl
plain_items-items (x ∷ l) = plain_items-items l
