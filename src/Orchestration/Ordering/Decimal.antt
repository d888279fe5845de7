-- ===== src/Orchestration/Ordering/Decimal.antt =====
-- Canonical decimals are compared as the numbers that they write.
use native.Mathlib.Nat.{pow-suc}
use native.Mathlib.Decide.{dec_lt}
use api_truth.Prelude.{
  ℕ, ◌+◌, ◌-◌, ◌*◌, ◌^◌, ◌≤◌, ◌<◌, ◌≡◌, refl, true, ◌&&◌, [], ◌∷◌, arith, length, all, ltb, ◌==◌,
  Bool-cases, sym, inl, inr, if◌then◌else◌,
}
use api_truth.Prelude.Text.{Str, str_eq, str_eq_iff, str_eq_refl, str_lt, str_lt-total}
use api_truth.Prelude.Powers.{le-mul, pow_mono}
use api_truth.Orchestration.Ordering.{
  is_digit, is_canonical_decimal, SequenceOrder, older, equal, newer, invalid, compare_decimal,
  compare_canonical_sequence,
}

-- The number that a string of digits writes.
unfoldable pub value : Str → ℕ
value [] = 0
value (c ∷ s) = (c - b'0') * 10 ^ length s + value s

unfoldable pub compare_numbers : ℕ → ℕ → SequenceOrder
compare_numbers current next =
    if ltb next current then older else if next == current then equal else newer

abbrev Digits : Str → Type 0
Digits s = all is_digit s ≡ true

Digits-cons : (c : ℕ) (s : Str) → Digits (c ∷ s) → (b'0' ≤ c) × (c ≤ b'9') × Digits s
Digits-cons c s h = (ground arith, ground arith, ground arith)

below_power : (d v p : ℕ) → d ≤ 9 → v < p → d * p + v < 10 * p
below_power d v p h k = grind arith

higher_digit : (d e v w p : ℕ) → d < e → v < p → d * p + v < e * p + w
higher_digit d e v w p h k = grind arith

value-lt : (s : Str) → Digits s → value s < 10 ^ length s
unfolding value
value-lt [] h = omega arith
value-lt (c ∷ s) h =
    let (low, high, rest) = Digits-cons c s h in
    rw pow-suc (
      omega
        (arith, below_power (c - b'0') (value s) (10 ^ length s) (omega arith) (value-lt s rest)))

equal_prefix : (x v w : ℕ) → ltb v w ≡ ltb (x + v) (x + w)
equal_prefix x v w = ground arith

-- Strings of digits of one length are ordered as their values.
value_mono :
    (s t : Str) → length s ≡ length t → Digits s → Digits t → str_lt s t ≡ ltb (value s) (value t)
unfolding value str_lt
value_mono [] [] e hs ht = refl
value_mono [] (b ∷ t) e hs ht = absurd (omega arith)
value_mono (a ∷ s) [] e hs ht = absurd (omega arith)
value_mono (a ∷ s) (b ∷ t) e hs ht =
    let (la, ha, rs) = Digits-cons a s hs in
    let (lb, hb, rt) = Digits-cons b t ht in
    let same : length s ≡ length t = omega arith in
    let ih = value_mono s t same rs rt in
    let vs = value-lt s rs in
    let vt = value-lt t rt in
    rw same (elim (dec_lt a b) [
      | yes lt ↦ ground (
        arith,
        higher_digit (a - b'0') (b - b'0') (value s) (value t) (10 ^ length t),
        rw same at vs,
      )
      | no ge ↦ elim (dec_lt b a) [
        | yes gt ↦
            ground (arith, higher_digit (b - b'0') (a - b'0') (value t) (value s) (10 ^ length t))
        | no le ↦
            let ab : a ≡ b = omega arith in
            rw ab
              (ground (arith, ih, equal_prefix ((b - b'0') * 10 ^ length t) (value s) (value t)))
      ]
    ])

pub Canonical-Digits : (s : Str) → is_canonical_decimal s ≡ true → Digits s
unfolding is_canonical_decimal
Canonical-Digits [] h = refl
Canonical-Digits (c ∷ []) h = ground arith
Canonical-Digits (c ∷ d ∷ s) h = ground arith

-- A canonical decimal of n + 1 digits, n > 0, is at least 10 ^ n.
leading :
    (c : ℕ) (s : Str)
    → 0 < length s
    → is_canonical_decimal (c ∷ s) ≡ true
    → 10 ^ length s ≤ value (c ∷ s)
unfolding is_canonical_decimal value
leading c [] p h = absurd (omega arith)
leading c (d ∷ s) p h =
    let positive : 1 ≤ c - b'0' = ground arith in
    omega (arith, le-mul (c - b'0') (10 ^ length (d ∷ s)) positive)

value_shorter :
    (s t : Str)
    → is_canonical_decimal s ≡ true
    → is_canonical_decimal t ≡ true
    → length s < length t
    → value s < value t
value_shorter s [] hs ht lt = absurd (omega arith)
value_shorter [] (d ∷ t) hs ht lt = absurd (unfold is_canonical_decimal in cc)
value_shorter (c ∷ s) (d ∷ t) hs ht lt = omega (
  arith,
  value-lt (c ∷ s) (Canonical-Digits (c ∷ s) hs),
  pow_mono 10 (length (c ∷ s)) (length t) (omega arith) (omega arith),
  leading d t (omega arith) ht,
)

compare_same_length :
    (s t : Str)
    → is_canonical_decimal s ≡ true
    → is_canonical_decimal t ≡ true
    → length s ≡ length t
    → compare_decimal s t ≡ compare_numbers (value s) (value t)
unfolding compare_decimal compare_numbers
compare_same_length s t hs ht e =
    let ds = Canonical-Digits s hs in
    let dt = Canonical-Digits t ht in
    elim (Bool-cases (str_eq t s)) [
      | inl same ↦ let p : t ≡ s = (str_eq_iff t s).0 same in rw p (ground (arith, str_eq_refl s))
      | inr differ ↦
          ground
            (arith, str_lt-total t s differ, value_mono s t e ds dt, value_mono t s (sym e) dt ds)
    ]

-- Whatever their lengths, canonical decimals are compared as numbers.
pub compare_decimal-eq :
    (s t : Str)
    → is_canonical_decimal s ≡ true
    → is_canonical_decimal t ≡ true
    → compare_decimal s t ≡ compare_numbers (value s) (value t)
compare_decimal-eq s t hs ht = elim (dec_lt (length s) (length t)) [
  | yes shorter ↦
      unfold compare_decimal compare_numbers in ground (arith, value_shorter s t hs ht shorter)
  | no ge ↦ elim (dec_lt (length t) (length s)) [
    | yes longer ↦
        unfold compare_decimal compare_numbers in ground (arith, value_shorter t s ht hs longer)
    | no le ↦ compare_same_length s t hs ht (omega arith)
  ]
]

-- compareCanonicalSequence answers `invalid` unless both are canonical decimals, and compares their
-- values otherwise.
pub compare_canonical_sequence-eq :
    (s t : Str)
    → compare_canonical_sequence s t ≡ (
        if is_canonical_decimal s && is_canonical_decimal t
        then compare_numbers (value s) (value t)
        else invalid)
unfolding compare_canonical_sequence
compare_canonical_sequence-eq s t = ground (arith, compare_decimal-eq s t)
