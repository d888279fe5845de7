-- ===== src/Prelude/Text.antt =====
-- JavaScript strings: the list of their UTF-16 code units, compared as `===` and `<` do.
use Prim.Native.Nat.{ℕ, zero, suc}
use Prim.Native.Char.{code}
use Prim.Native.String.{String}
use mathlib.Core.Path.{◌≡◌, refl}
use mathlib.Core.Logic.{◌≢◌, ◌↔◌, inl, inr}
use mathlib.Core.Bool.{Bool, true, false, ◌&&◌, not}
use mathlib.Core.Option.{Option, none, some}
use mathlib.Core.List.{List, [], ◌∷◌}
use native.Mathlib.Omega.{arith}
use api_truth.Prelude.Tests.{◌==◌, if◌then◌else◌, ltb, Bool-cases}

abbrev pub Str : Type 0
Str = List ℕ

-- An ASCII literal.
abbrev pub lit : String → Str
lit String.[] = []
lit (String.◌∷◌ c s) = code c ∷ lit s

-- s === t
unfoldable pub str_eq : Str → Str → Bool
str_eq [] [] = true
str_eq [] (b ∷ t) = false
str_eq (a ∷ s) [] = false
str_eq (a ∷ s) (b ∷ t) = a == b && str_eq s t

str_eq→≡ : (s t : Str) → str_eq s t ≡ true → s ≡ t
unfolding str_eq
str_eq→≡ [] [] h = refl
str_eq→≡ [] (b ∷ t) h = cc
str_eq→≡ (a ∷ s) [] h = cc
str_eq→≡ (a ∷ s) (b ∷ t) h = ground (arith, str_eq→≡ s t)

pub str_eq_refl : (s : Str) → str_eq s s ≡ true
unfolding str_eq
str_eq_refl [] = refl
str_eq_refl (a ∷ s) = ground (arith, str_eq_refl s)

pub str_eq_iff : (s t : Str) → (str_eq s t ≡ true) ↔ (s ≡ t)
str_eq_iff s t = (str_eq→≡ s t, λ e. rw e (str_eq_refl t))

-- s < t, by code units
unfoldable pub str_lt : Str → Str → Bool
str_lt s [] = false
str_lt [] (b ∷ t) = true
str_lt (a ∷ s) (b ∷ t) = let rest = str_lt s t in if a == b then rest else ltb a b

pub str_lt_irrefl : (s : Str) → str_lt s s ≡ false
unfolding str_lt
str_lt_irrefl [] = refl
str_lt_irrefl (a ∷ s) = ground (arith, str_lt_irrefl s)

pub str_lt_trans : (s t u : Str) → str_lt s t ≡ true → str_lt t u ≡ true → str_lt s u ≡ true
unfolding str_lt
str_lt_trans s t [] h k = cc
str_lt_trans s [] (c ∷ u) h k = cc
str_lt_trans [] (b ∷ t) (c ∷ u) h k = refl
str_lt_trans (a ∷ s) (b ∷ t) (c ∷ u) h k = ground (arith, str_lt_trans s t u)

-- Exactly one of s < t, s === t and t < s holds.
pub str_lt-total : (s t : Str) → str_eq s t ≡ false → str_lt s t ≡ not (str_lt t s)
unfolding str_lt str_eq
str_lt-total [] [] h = cc
str_lt-total [] (b ∷ t) h = refl
str_lt-total (a ∷ s) [] h = refl
str_lt-total (a ∷ s) (b ∷ t) h = ground (arith, str_lt-total s t)

-- What is not above `s` is below whatever `s` is below.
pub str_lt-weak : (s t u : Str) → str_lt s u ≡ true → str_lt s t ≡ false → str_lt t u ≡ true
str_lt-weak s t u h k = elim (Bool-cases (str_eq t s)) [
  | inl same ↦ rw ((str_eq_iff t s).0 same) h
  | inr differ ↦ str_lt_trans t s u (ground (arith, str_lt-total t s differ)) h
]

-- s.startsWith(prefix), and the rest of the text behind it
unfoldable pub after_prefix : Str → Str → Option Str
after_prefix [] s = some s
after_prefix (a ∷ p) [] = none
after_prefix (a ∷ p) (b ∷ s) = let rest = after_prefix p s in if a == b then rest else none

unfoldable pub starts_with : Str → Str → Bool
unfolding after_prefix
starts_with p s = elim (after_prefix p s) [ none ↦ false | some rest ↦ true ]

-- s.slice(n)
unfoldable pub slice_from : ℕ → Str → Str
slice_from zero s = s
slice_from (suc n) [] = []
slice_from (suc n) (a ∷ s) = slice_from n s

abbrev push_head : ℕ → List Str → List Str
push_head a [] = (a ∷ []) ∷ []
push_head a (part ∷ parts) = (a ∷ part) ∷ parts

-- s.split(c), for a separator of one unit
unfoldable pub split : ℕ → Str → List Str
split c [] = [] ∷ []
split c (a ∷ s) = let rest = split c s in if a == c then [] ∷ rest else push_head a rest

pub str_eq-ne : (s t : Str) → str_eq s t ≡ false → s ≢ t
str_eq-ne s t h e = cc ((str_eq_iff s t).1 e, h)

-- Of two different strings exactly one stands before the other.
pub str_lt_one_way : (s t : Str) → s ≢ t → str_lt s t ≡ not (str_lt t s)
str_lt_one_way s t h = elim (Bool-cases (str_eq s t)) [
  | inl e ↦ absurd (h ((str_eq_iff s t).0 e))
  | inr e ↦ str_lt-total s t e
]

pub str_eq_sym : (s t : Str) → str_eq s t ≡ str_eq t s
unfolding str_eq
str_eq_sym [] [] = refl
str_eq_sym [] (b ∷ t) = refl
str_eq_sym (a ∷ s) [] = refl
str_eq_sym (a ∷ s) (b ∷ t) = ground (arith, str_eq_sym s t)
