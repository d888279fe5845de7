-- ===== src/Prelude/Powers.antt =====
-- Powers of a positive base grow with the exponent.
use native.Mathlib.Nat.{pow-suc, pow-zero, le_refl, add-zero, add-suc}
use Prim.Native.Nat.{ℕ, zero, suc, ◌+◌, ◌-◌, ◌*◌, ◌^◌, ◌≤◌}
use mathlib.Core.Path.{◌≡◌}
use native.Mathlib.Omega.{arith}

pub le-mul : (b p : ℕ) → 1 ≤ b → p ≤ b * p
le-mul b p h = grind arith

pub pow-pos : (b n : ℕ) → 1 ≤ b → 1 ≤ b ^ n
pow-pos b zero h = rw pow-zero (le_refl 1)
pow-pos b (suc n) h = rw pow-suc (grind (arith, pow-pos b n h))

pow-le-add : (b n k : ℕ) → 1 ≤ b → b ^ n ≤ b ^ (n + k)
pow-le-add b n zero h = rw add-zero (le_refl (b ^ n))
pow-le-add b n (suc k) h =
    rw (add-suc, pow-suc) (grind (arith, pow-le-add b n k h, le-mul b (b ^ (n + k)) h))

pub pow_mono : (b n m : ℕ) → 1 ≤ b → n ≤ m → b ^ n ≤ b ^ m
pow_mono b n m h le = let e : m ≡ n + (m - n) = omega arith in rw e (pow-le-add b n (m - n) h)
