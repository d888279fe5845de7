-- ===== src/Prelude/Sets.antt =====
-- JavaScript's `Set` and `Map` with string keys, in insertion order.
use mathlib.Core.Path.{◌≡◌, refl}
use mathlib.Core.Logic.{inl, inr}
use mathlib.Core.Bool.{Bool, false, ◌||◌}
use mathlib.Core.Option.{Option, none, some}
use mathlib.Core.List.{List, [], ◌∷◌, ◌++◌}
use native.Mathlib.Omega.{arith}
use api_truth.Prelude.Tests.{if◌then◌else◌, Bool-cases}
use api_truth.Prelude.Text.{Str, str_eq, str_eq_iff}

-- s.has(x), s.includes(x)
unfoldable pub has : Str → List Str → Bool
has x [] = false
has x (y ∷ s) = str_eq x y || has x s

-- s.add(x)
unfoldable pub add : Str → List Str → List Str
unfolding has
add x s = if has x s then s else s ++ x ∷ []

-- for (const x of xs) s.add(x)
unfoldable pub add_all : List Str → List Str → List Str
add_all [] s = s
add_all (x ∷ xs) s = add_all xs (add x s)

pub has-append : (x : Str) (s t : List Str) → has x (s ++ t) ≡ (has x s || has x t)
unfolding has
has-append x [] t = refl
has-append x (y ∷ s) t = ground (arith, has-append x s t)

pub has-add : (x y : Str) (s : List Str) → has x (add y s) ≡ (str_eq x y || has x s)
unfolding add
has-add x y s = elim (Bool-cases (has y s)) [
  | inl old ↦ rw (old) (elim (Bool-cases (str_eq x y)) [
    | inl e ↦ rw e (rw ((str_eq_iff x y).0 e) old)
    | inr e ↦ rw e
  ])
  | inr new ↦ rw (new, has-append) (unfold has in ground arith)
]

pub has-add_all : (x : Str) (xs s : List Str) → has x (add_all xs s) ≡ (has x xs || has x s)
unfolding add_all
has-add_all x [] s = unfold has in refl
has-add_all x (y ∷ xs) s = rw (has-add_all x xs (add y s)) (rw has-add (unfold has in ground arith))

-- m.get(k)
unfoldable pub lookup {ℓ} : {V : Type ℓ} → Str → List (Str × V) → Option V
lookup k [] = none
lookup k ((j, v) ∷ m) = if str_eq k j then some v else lookup k m

-- const v = m.get(k) ?? initial; m.set(k, change(v))
unfoldable pub alter {ℓ} : {V : Type ℓ} → Str → V → (V → V) → List (Str × V) → List (Str × V)
alter k initial change [] = (k, change initial) ∷ []
alter k initial change ((j, v) ∷ m) =
    let rest = alter k initial change m in if str_eq k j then (j, change v) ∷ m else (j, v) ∷ rest
