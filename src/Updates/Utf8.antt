-- ===== src/Updates/Utf8.antt =====
-- packages/updates/src/canonical.ts: the order of strings by their UTF-8 bytes. A lone surrogate is
-- encoded as U+FFFD, so the order does not tell two of them apart.
pub mod Apart
use api_truth.Prelude.{
  ℕ, ◌+◌, ◌-◌, ◌*◌, ◌/◌, ◌%◌, ◌≡◌, refl, Bool, true, false, ◌&&◌, ◌||◌, not, List, [], ◌∷◌, ◌++◌,
  map, leb, ltb, if◌then◌else◌, all,
}
use api_truth.Prelude.Text.{Str, str_lt}
use api_truth.Prelude.Sorting.{sort, IsWeakOrder, by_key-IsWeakOrder}
use api_truth.Orchestration.Canonical.{code_points}

-- The bytes of a code point.
abbrev point_bytes : ℕ → List ℕ
point_bytes p =
    if ltb p 0x80
    then p ∷ []
    else if ltb p 0x800
    then (0xc0 + p / 64) ∷ (0x80 + p % 64) ∷ []
    else if leb 0xd800 p && leb p 0xdfff
    then 0xef ∷ 0xbf ∷ 0xbd ∷ []
    else if ltb p 0x10000
    then (0xe0 + p / 4096) ∷ (0x80 + p / 64 % 64) ∷ (0x80 + p % 64) ∷ []
    else (0xf0 + p / 262144) ∷ (0x80 + p / 4096 % 64) ∷ (0x80 + p / 64 % 64) ∷ (0x80 + p % 64) ∷ []

bytes_of_points : List ℕ → List ℕ
bytes_of_points [] = []
bytes_of_points (p ∷ ps) = point_bytes p ++ bytes_of_points ps

-- Buffer.from(s, "utf8")
unfoldable pub utf8 : Str → List ℕ
unfolding bytes_of_points code_points
utf8 s = bytes_of_points (code_points s)

-- compareUtf8(left, right) < 0
abbrev pub utf8_before : Str → Str → Bool
utf8_before left right = str_lt (utf8 left) (utf8 right)

pub utf8_order : IsWeakOrder utf8_before
utf8_order = by_key-IsWeakOrder utf8

-- isCanonicalBy(values, projection)
unfoldable pub is_canonical_by {ℓ} : {A : Type ℓ} → (A → Str) → List A → Bool
is_canonical_by key [] = true
is_canonical_by key (x ∷ []) = true
is_canonical_by key (x ∷ y ∷ l) = utf8_before (key x) (key y) && is_canonical_by key (y ∷ l)

-- isCanonicalStringSet(values)
unfoldable pub is_canonical_string_set : List Str → Bool
unfolding is_canonical_by
is_canonical_string_set l = is_canonical_by (λ s. s) l
