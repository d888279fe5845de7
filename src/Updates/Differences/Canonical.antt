-- ===== src/Updates/Differences/Canonical.antt =====
-- packages/updates/src/differences.ts: the maps that it keys by canonical texts, and the canonical
-- forms of schemas and conditions.
use api_truth.Prelude.{
  ℕ, ◌+◌, Bool, false, ◌&&◌, none, some, List, [], ◌∷◌, map, leb, if◌then◌else◌,
}
use api_truth.Prelude.Text.{Str, lit, str_eq}
use api_truth.Prelude.Sets.{has, alter}
use api_truth.Prelude.Sorting.{sort}
use api_truth.Json.{
  Json, Items, Fields, null, exotic, boolean, number, str, arr, obj, nil, cons, end, field, get,
}
use api_truth.Orchestration.Canonical.{serialize}
use api_truth.Updates.Utf8.{utf8_before}

-- canonicalJson(value). Snapshots are parsed from JSON, so all that is written here is plain, and a
-- plain value has a text.
unfoldable pub canonical_json : Json → Str
unfolding serialize
canonical_json v = elim (serialize v) [ some text ↦ text | none ↦ [] ]

-- map.set(key(value), value) for each value
unfoldable pub put_all {ℓ} : {A : Type ℓ} → (A → Str) → List A → List (Str × A) → List (Str × A)
unfolding alter
put_all key [] m = m
put_all key (x ∷ l) m = put_all key l (alter (key x) x (λ old. x) m)

-- [...m.entries()].sort(([left], [right]) => compareUtf8(left, right))
unfoldable pub sorted_entries {ℓ} : {A : Type ℓ} → List (Str × A) → List (Str × A)
unfolding sort
sorted_entries m = sort (λ a b. utf8_before a.0 b.0) m

-- [...m.values()]
unfoldable pub values {ℓ} : {A : Type ℓ} → List (Str × A) → List A
values [] = []
values ((k, v) ∷ m) = v ∷ values m

-- [...m.keys()]
unfoldable pub keys_of {ℓ} : {A : Type ℓ} → List (Str × A) → List Str
keys_of [] = []
keys_of ((k, v) ∷ m) = k ∷ keys_of m

unfoldable pub unique_sorted {ℓ} : {A : Type ℓ} → (A → Str) → List A → List A
unfolding put_all sorted_entries values
unique_sorted key l = values (sorted_entries (put_all key l []))

unfoldable pub canonical_strings : List Str → List Str
unfolding unique_sorted
canonical_strings l = unique_sorted (λ s. s) l

unfoldable pub list_of : Items → List Json
list_of nil = []
list_of (cons x xs) = x ∷ list_of xs

items_of : List Json → Items
items_of [] = nil
items_of (x ∷ l) = cons x (items_of l)

fields_of : List (Str × Json) → Fields
fields_of [] = end
fields_of ((k, v) ∷ l) = field k v (fields_of l)

unfoldable pub array : List Json → Json
unfolding items_of
array l = arr (items_of l)

unfoldable pub object : List (Str × Json) → Json
unfolding fields_of
object l = obj (fields_of l)

-- The key of a member of `type` or `required`. In a JSON Schema these hold strings; at a member that
-- is neither a string nor an array, compareUtf8 of the source throws a TypeError, which is not
-- modelled.
text_of : Json → Str
unfolding canonical_json
text_of (str s) = s
text_of v = canonical_json v

-- schema.type, schema.required, schema.enum, schema.oneOf, ... of a schema with canonical members
unfoldable pub canonical_keyword : Str → Json → Json
unfolding has array unique_sorted text_of canonical_json list_of
canonical_keyword k (arr xs) =
    if has k (lit "type" ∷ lit "required" ∷ [])
    then array (unique_sorted text_of (list_of xs))
    else if has k (lit "enum" ∷ lit "oneOf" ∷ lit "anyOf" ∷ lit "allOf" ∷ [])
    then array (unique_sorted canonical_json (list_of xs))
    else arr xs
canonical_keyword k v = v

unfoldable mutual
  unfolding canonical_keyword

  pub canonical_schema : Json → Json
  canonical_schema (arr xs) = arr (canonical_schemas xs)
  canonical_schema (obj fs) = obj (canonical_members fs)
  canonical_schema null = null
  canonical_schema exotic = exotic
  canonical_schema (boolean b) = boolean b
  canonical_schema (number n) = number n
  canonical_schema (str s) = str s

  pub canonical_schemas : Items → Items
  canonical_schemas nil = nil
  canonical_schemas (cons x xs) = cons (canonical_schema x) (canonical_schemas xs)

  pub canonical_members : Fields → Fields
  canonical_members end = end
  canonical_members (field k v fs) =
      field k (canonical_keyword k (canonical_schema v)) (canonical_members fs)

-- condition.operator === "and" || condition.operator === "or"
is_commutative : Fields → Bool
unfolding get has
is_commutative fs = elim (get (lit "operator") fs) [
  | some (str s) ↦ has s (lit "and" ∷ lit "or" ∷ [])
  | _ ↦ false
]

sorted_strings : Json → Json
unfolding array unique_sorted text_of list_of
sorted_strings (arr xs) = array (unique_sorted text_of (list_of xs))
sorted_strings v = v

sorted_operands : Bool → Items → Json
unfolding array unique_sorted canonical_json list_of
sorted_operands commutes xs =
    if commutes then array (unique_sorted canonical_json (list_of xs)) else arr xs

-- The final JSON.parse(canonicalJson(condition)) only sorts members, which no reader observes.
unfoldable mutual
  unfolding is_commutative sorted_strings sorted_operands str_eq

  pub canonical_condition : Json → Json
  canonical_condition (obj fs) = obj (condition_members (is_commutative fs) fs)
  canonical_condition v = v

  pub condition_members : Bool → Fields → Fields
  condition_members commutes end = end
  condition_members commutes (field k v fs) =
      field k
        (if str_eq k (lit "affected_schema_paths")
          then sorted_strings v
          else if str_eq k (lit "operands")
          then condition_operands commutes v
          else v)
        (condition_members commutes fs)

  pub condition_operands : Bool → Json → Json
  condition_operands commutes (arr xs) = sorted_operands commutes (conditions xs)
  condition_operands commutes v = v

  pub conditions : Items → Items
  conditions nil = nil
  conditions (cons x xs) = cons (canonical_condition x) (conditions xs)

-- value.replace(/[A-Z]/g, (character) => character.toLowerCase())
unfoldable pub ascii_lower : Str → Str
ascii_lower s = map (λ (u : ℕ). if leb b'A' u && leb u b'Z' then u + 32 else u) s
