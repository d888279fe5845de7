-- ===== src/Orchestration/Canonical.antt =====
-- packages/orchestration/src/canonical.ts: canonical JSON text, and detached copies of inputs.
-- A refusal (INVALID_ORCHESTRATION_INPUT) is `none`.
pub mod Texts
pub mod Total
use api_truth.Prelude.{
  ℕ, ◌+◌, ◌-◌, ◌*◌, ◌/◌, ◌%◌, ◌≡◌, refl, Bool, true, false, ◌&&◌, ◌||◌, not, Option, none, some,
  List, [], ◌∷◌, ◌++◌, map, arith, ltb, leb, ◌==◌, if◌then◌else◌, Bool-cases, inl, inr,
}
use api_truth.Prelude.Text.{Str, lit, str_lt, str_eq}
use api_truth.Prelude.Sorting.{insert, sort}
use api_truth.Json.{
  Number, Json, Items, Fields, null, exotic, boolean, number, str, arr, obj, nil, cons, end, field,
}

infixl 5 ◌>>=◌
abbrev pub ◌>>=◌ : {A B : Type 0} → Option A → (A → Option B) → Option B
none >>= f = none
some a >>= f = f a

abbrev high : ℕ → Bool
high a = leb 0xd800 a && leb a 0xdbff

abbrev low : ℕ → Bool
low a = leb 0xdc00 a && leb a 0xdfff

-- Array.from(text, (value) => value.codePointAt(0))
unfoldable pub code_points : Str → List ℕ
code_points [] = []
code_points (a ∷ []) = a ∷ []
code_points (a ∷ b ∷ s) =
    let pair = (0x10000 + (a - 0xd800) * 0x400 + (b - 0xdc00)) ∷ code_points s in
    let alone = a ∷ code_points (b ∷ s) in if high a && low b then pair else alone

-- compareCodePoints(left, right) < 0
unfoldable pub points_before : Str → Str → Bool
unfolding code_points str_lt
points_before left right = str_lt (code_points left) (code_points right)

abbrev hex_digit : ℕ → ℕ
hex_digit n = if ltb n 10 then b'0' + n else b'a' + (n - 10)

abbrev escape_unit : ℕ → Str
escape_unit a =
    b'\\'
    ∷ b'u'
    ∷ hex_digit (a / 0x1000 % 16)
    ∷ hex_digit (a / 0x100 % 16)
    ∷ hex_digit (a / 16 % 16)
    ∷ hex_digit (a % 16)
    ∷ []

-- The short escapes of JSON.stringify.
unfoldable pub escape : ℕ → Str
escape a =
    if a == b'"' || a == b'\\'
    then b'\\' ∷ a ∷ []
    else if a == 8
    then b'\\' ∷ b'b' ∷ []
    else if a == 9
    then b'\\' ∷ b't' ∷ []
    else if a == 10
    then b'\\' ∷ b'n' ∷ []
    else if a == 12
    then b'\\' ∷ b'f' ∷ []
    else if a == 13
    then b'\\' ∷ b'r' ∷ []
    else if ltb a 32 || high a || low a
    then escape_unit a
    else a ∷ []

-- A surrogate pair is printed as it is, a lone surrogate is escaped.
unfoldable pub escape_all : Str → Str
escape_all [] = []
escape_all (a ∷ []) = escape a
escape_all (a ∷ b ∷ s) =
    let pair = a ∷ b ∷ escape_all s in
    let alone = escape a ++ escape_all (b ∷ s) in if high a && low b then pair else alone

-- JSON.stringify of a string
unfoldable pub quote : Str → Str
unfolding escape_all escape
quote s = b'"' ∷ (escape_all s ++ b'"' ∷ [])

-- parts.join(",")
unfoldable pub join : List Str → Str
join [] = []
join (x ∷ []) = x
join (x ∷ y ∷ xs) = x ++ b',' ∷ join (y ∷ xs)

abbrev pub Member : Type 0
Member = Str × Str

abbrev member_before : Member → Member → Bool
member_before a b = points_before a.0 b.0

abbrev pub member_text : Member → Str
member_text m = quote m.0 ++ b':' ∷ m.1

unfoldable pub print_object : List Member → Str
unfolding sort points_before quote join
print_object ms = b'{' ∷ (join (map member_text (sort member_before ms)) ++ b'}' ∷ [])

unfoldable mutual
  unfolding print_object quote join

  pub serialize : Json → Option Str
  serialize null = some (lit "null")
  serialize exotic = none
  serialize (boolean b) = some (if b then lit "true" else lit "false")
  serialize (number n) = if n.finite then some n.text else none
  serialize (str s) = some (quote s)
  serialize (arr xs) = do texts ← serialize_items xs; some (b'[' ∷ (join texts ++ b']' ∷ []))
  serialize (obj fs) = do members ← serialize_fields fs; some (print_object members)

  pub serialize_items : Items → Option (List Str)
  serialize_items nil = some []
  serialize_items (cons x xs) = do
    text ← serialize x
    texts ← serialize_items xs
    some (text ∷ texts)

  pub serialize_fields : Fields → Option (List Member)
  serialize_fields end = some []
  serialize_fields (field k v fs) = do
    text ← serialize v
    members ← serialize_fields fs
    some ((k, text) ∷ members)

-- JSON.parse(canonicalOrchestrationJson(value)): the same value, or a refusal. The order of members,
-- which the text sorts, is not observed by any reader of a detached value.
unfoldable pub detached : Json → Option Json
unfolding serialize
detached v = do text ← serialize v; some v

-- canonicalOrchestrationJson(a) === canonicalOrchestrationJson(b), on values that serialize
unfoldable pub same_text : Json → Json → Option Bool
unfolding str_eq
same_text a b = do s ← serialize a; t ← serialize b; some (str_eq s t)

serialize_test :
    serialize (obj (field (lit "b") (boolean true) (field (lit "a") (arr (cons null nil)) end)))
    ≡ some (lit "{\"a\":[null],\"b\":true}")
unfolding serialize
serialize_test = refl
