-- ===== src/Orchestration/State/Retry.antt =====
-- The retry delay: the shortcut past 53 attempts changes nothing.
use native.Mathlib.Nat.{pow-suc}
use api_truth.Prelude.{
  ℕ, zero, suc, ◌-◌, ◌*◌, ◌^◌, ◌≤◌, ◌<◌, ◌≡◌, refl, true, arith, min, ltb, Option, some, Bool-cases,
  ltb→lt, inl, inr,
}
use api_truth.Prelude.Powers.{pow-pos, pow_mono}
use api_truth.Prelude.Text.{Str, lit}
use api_truth.Json.{Json, Fields, get, obj, number, field, end}
use api_truth.Orchestration.Errors.{
  invalid_orchestration_input, Result, ok, err, >>=-eq-ok, >>-eq-ok, ◌>>=◌,
}
use api_truth.Orchestration.State.{
  max_safe, retry_delay, safe_integer, checked_delay, delay_of_fields, detached_record,
  compute_retry_delay_ms,
}

sub_one : (n : ℕ) → suc n - 1 ≡ n
sub_one n = omega arith

mul-le : (b p : ℕ) → 1 ≤ b → p ≤ b * p
mul-le b p h = grind arith

-- Past 53 attempts the doubled base is beyond every safe integer.
pow_beyond : (a b m : ℕ) → 53 < a → 1 ≤ b → m ≤ max_safe → m ≤ b * 2 ^ (a - 1)
pow_beyond a b m h pb pm =
    let big : 2 ^ 53 ≤ 2 ^ (a - 1) = pow_mono 2 53 (a - 1) (omega arith) (omega arith) in
    omega (arith, mul-le b (2 ^ (a - 1)) pb)

-- For every attempt, the delay is the doubled base, capped: the shortcut changes nothing.
pub retry_delay-eq-min :
    (a b m : ℕ) → 1 ≤ b → m ≤ max_safe → retry_delay a b m ≡ min m (b * 2 ^ (a - 1))
unfolding retry_delay
retry_delay-eq-min a b m pb pm = elim (Bool-cases (ltb 53 a)) [
  | inl late ↦ rw late (omega (arith, pow_beyond a b m (ltb→lt 53 a late) pb pm))
  | inr early ↦ rw early
]

-- With 1 ≤ attempt, 1 ≤ base ≤ cap and a safe cap, the delay lies between the base and the cap, and
-- the next attempt waits exactly twice as long, or as long as the cap allows.
pub retry_delay_backoff :
    (a b m : ℕ)
    → 1 ≤ a
    → 1 ≤ b
    → b ≤ m
    → m ≤ max_safe
    → (b ≤ retry_delay a b m)
      × (retry_delay a b m ≤ m)
      × (retry_delay (suc a) b m ≡ min m (2 * retry_delay a b m))
retry_delay_backoff zero b m pa pb le pm = absurd (omega arith)
retry_delay_backoff (suc a) b m pa pb le pm =
    let p : 1 ≤ 2 ^ a = pow-pos 2 a (omega arith) in
    let e : retry_delay (suc a) b m ≡ min m (b * 2 ^ a) =
      rw (retry_delay-eq-min (suc a) b m pb pm) (rw (sub_one a)) in
    let d : retry_delay (suc (suc a)) b m ≡ min m (b * (2 ^ suc a)) =
      rw (retry_delay-eq-min (suc (suc a)) b m pb pm) (rw (sub_one (suc a))) in
    let g : b ≤ b * 2 ^ a = grind arith in
    let w : b * (2 ^ suc a) ≡ 2 * (b * 2 ^ a) = rw pow-suc (omega arith) in
    (omega arith, omega arith, omega arith)

safe_integer-le : (o : Option Json) {v : ℕ} → safe_integer o ≡ ok v → v ≤ max_safe
unfolding safe_integer
safe_integer-le o h = ground arith

abbrev IsSafe : ℕ → Type 0
IsSafe d = (1 ≤ d) × (d ≤ max_safe)

checked_delay-IsSafe : (a b m : ℕ) {d : ℕ} → m ≤ max_safe → checked_delay a b m ≡ ok d → IsSafe d
unfolding checked_delay
checked_delay-IsSafe a b m pm h = ground (arith, retry_delay_backoff a b m)

chain-IsSafe :
    (ra rb rm : Result ℕ) {d : ℕ}
    → ((m : ℕ) → rm ≡ ok m → m ≤ max_safe)
    → (do a ← ra; b ← rb; m ← rm; checked_delay a b m) ≡ ok d
    → IsSafe d
chain-IsSafe (ok a) (ok b) (ok m) safe h = checked_delay-IsSafe a b m (safe m refl) h
chain-IsSafe (ok a) (ok b) (err c) safe h = cc
chain-IsSafe (ok a) (err c) rm safe h = cc
chain-IsSafe (err c) rb rm safe h = cc

delay_of_fields-IsSafe : (fs : Fields) {d : ℕ} → delay_of_fields fs ≡ ok d → IsSafe d
unfolding delay_of_fields
delay_of_fields-IsSafe fs h =
    chain-IsSafe (safe_integer (get (lit "attempt") fs)) (safe_integer (get (lit "baseDelayMs") fs))
      (safe_integer (get (lit "maxDelayMs") fs))
      (λ m e. safe_integer-le (get (lit "maxDelayMs") fs) e) h

-- Every delay that `computeRetryDelayMs` returns is a positive safe integer.
pub compute_retry_delay_ms_bounds :
    (input : Json) {d : ℕ} → compute_retry_delay_ms input ≡ ok d → (1 ≤ d) × (d ≤ max_safe)
unfolding compute_retry_delay_ms
compute_retry_delay_ms_bounds input h =
    let (value, checked, _) = >>=-eq-ok (detached_record input) _ h in
    let (delayed, _) = >>-eq-ok _ invalid_orchestration_input (delay_of_fields value) checked in
    delay_of_fields-IsSafe value delayed

abbrev numeral : Str → ℕ → Json
numeral text n = number (record { text = text; natural = some n; finite = true })

-- An object with the three members, as some caller prints them.
abbrev pub retry_input : (a b m : ℕ) (sa sb sm : Str) → Json
retry_input a b m sa sb sm = obj (
    field (lit "attempt") (numeral sa a)
      (field (lit "baseDelayMs") (numeral sb b) (field (lit "maxDelayMs") (numeral sm m) end)))

-- Every triple of safe integers with 1 ≤ attempt and 1 ≤ base ≤ cap is accepted, and the delay is the
-- base times 2 ^ (attempt - 1), capped.
pub compute_retry_delay_ms_total :
    (a b m : ℕ) (sa sb sm : Str)
    → 1 ≤ a
    → a ≤ max_safe
    → 1 ≤ b
    → b ≤ m
    → m ≤ max_safe
    → compute_retry_delay_ms (retry_input a b m sa sb sm) ≡ ok (min m (b * 2 ^ (a - 1)))
unfolding compute_retry_delay_ms checked_delay retry_delay
compute_retry_delay_ms_total a b m sa sb sm pa qa pb le pm =
    ground (arith, retry_delay-eq-min a b m)
