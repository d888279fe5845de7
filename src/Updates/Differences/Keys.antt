-- ===== src/Updates/Differences/Keys.antt =====
-- packages/updates/src/differences.ts: the loops over the keys of two maps visit every key.
use api_truth.Prelude.{
  Bool, true, false, ◌||◌, ◌≡◌, ◌↔◌, refl, ap, sym, ◌∙◌, Option, none, List, [], ◌∷◌, ◌++◌, arith,
  inl, inr, Bool-cases,
}
use api_truth.Prelude.Text.{Str, str_eq, str_eq_iff}
use api_truth.Prelude.Sets.{has, has-append, lookup, alter}
use api_truth.Prelude.Sorting.{insert, sort}
use api_truth.Updates.Utf8.{utf8_before}
use api_truth.Updates.Differences.Canonical.{
  put_all, sorted_entries, values, keys_of, unique_sorted, canonical_strings,
}
use api_truth.Updates.Differences.Members.{each_key, both_keys}

abbrev Named : Type 0
Named = Str × Str

has-values-insert :
    (before : Named → Named → Bool) (x : Str) (e : Named) (m : List Named)
    → has x (values (insert before e m)) ≡ (str_eq x e.1 || has x (values m))
unfolding insert values has
has-values-insert before x e [] = refl
has-values-insert before x e (f ∷ m) = ground (arith, has-values-insert before x e m)

has-values-sort :
    (before : Named → Named → Bool) (x : Str) (m : List Named)
    → has x (values (sort before m)) ≡ has x (values m)
unfolding sort values has
has-values-sort before x [] = refl
has-values-sort before x (e ∷ m) =
    rw (has-values-insert before x e (sort before m)) (rw (has-values-sort before x m) refl)

-- Every entry of the map from strings to themselves.
abbrev Reflexive : List Named → Type 0
Reflexive [] = Unit
Reflexive (e ∷ m) = (e.0 ≡ e.1) × Reflexive m

alter-Reflexive : (y : Str) (m : List Named) → Reflexive m → Reflexive (alter y y (λ old. y) m)
unfolding alter
alter-Reflexive y [] r = (refl, tt)
alter-Reflexive y ((j, v) ∷ m) r = elim (Bool-cases (str_eq y j)) [
  | inl e ↦ rw e (sym ((str_eq_iff y j).0 e), r.1)
  | inr e ↦ rw e (r.0, alter-Reflexive y m r.1)
]

has-values-alter :
    (x y : Str) (m : List Named)
    → Reflexive m
    → has x (values (alter y y (λ old. y) m)) ≡ (str_eq x y || has x (values m))
unfolding alter values has
has-values-alter x y [] r = refl
has-values-alter x y ((j, v) ∷ m) r = elim (Bool-cases (str_eq y j)) [
  | inl e ↦
      let same : v ≡ y = sym ((str_eq_iff y j).0 e ∙ r.0) in ground (arith, e, ap (str_eq x) same)
  | inr e ↦ ground (arith, e, has-values-alter x y m r.1)
]

has-put_all :
    (x : Str) (l : List Str) (m : List Named)
    → Reflexive m
    → has x (values (put_all (λ s. s) l m)) ≡ (has x l || has x (values m))
unfolding put_all has
has-put_all x [] m r = refl
has-put_all x (y ∷ l) m r =
    has-put_all x l (alter y y (λ old. y) m) (alter-Reflexive y m r)
    ∙ ground (arith, has-values-alter x y m r)

-- Making a list of strings canonical keeps its members.
pub has-canonical_strings : (x : Str) (l : List Str) → has x (canonical_strings l) ≡ has x l
unfolding canonical_strings unique_sorted sorted_entries
has-canonical_strings x l =
    has-values-sort (λ a b. utf8_before a.0 b.0) x (put_all (λ s. s) l [])
    ∙ (has-put_all x l [] tt ∙ (unfold has in ground arith))

lookup-keys_of :
    {A : Type 0} (x : Str) (m : List (Str × A)) → has x (keys_of m) ≡ false → lookup x m ≡ none
unfolding has keys_of lookup
lookup-keys_of x [] h = refl
lookup-keys_of x ((k, v) ∷ m) h = ground (arith, h, lookup-keys_of x m)

or-false : (p q : Bool) → (p || q) ≡ false → (p ≡ false) × (q ≡ false)
or-false p q h = ground (arith, h)

pub append-nil : {A : Type 0} (l m : List A) → ((l ++ m) ≡ []) ↔ ((l ≡ []) × (m ≡ []))
append-nil [] m = (λ h. (refl, h), λ h. h.1)
append-nil (x ∷ l) m = (λ h. cc h, λ h. cc h.0)

each_key-nil :
    {A : Type 0} (round : Str → List A) (l : List Str)
    → each_key round l ≡ []
    → (x : Str) → has x l ≡ true
    → round x ≡ []
unfolding each_key has
each_key-nil round [] h x k = cc k
each_key-nil round (y ∷ l) h x k =
    let parts = (append-nil (round y) (each_key round l)).0 h in
    elim (Bool-cases (str_eq x y)) [
      | inl e ↦ rw ((str_eq_iff x y).0 e) parts.0
      | inr e ↦ each_key-nil round l parts.1 x (ground (arith, e, k))
    ]

pub each_key-all_nil :
    {A : Type 0} (round : Str → List A) (l : List Str)
    → ((x : Str) → round x ≡ [])
    → each_key round l ≡ []
unfolding each_key
each_key-all_nil round [] h = refl
each_key-all_nil round (y ∷ l) h = rw (h y, each_key-all_nil round l h) refl

-- A loop over the keys of two maps that does nothing at a key of neither does nothing exactly if it
-- does nothing at any string.
module _ {A D : Type 0} (round : Str → Option A → Option A → List D) (m n : List (Str × A))
    (idle : (x : Str) → round x none none ≡ []) where
  abbrev at : Str → List D
  at x = round x (lookup x m) (lookup x n)

  at-nil : each_key at (both_keys m n) ≡ [] → (x : Str) → at x ≡ []
  unfolding both_keys
  at-nil h x = elim (Bool-cases (has x (keys_of m ++ keys_of n))) [
    | inl e ↦ each_key-nil at (both_keys m n) h x (has-canonical_strings x _ ∙ e)
    | inr e ↦
        let neither =
          or-false (has x (keys_of m)) (has x (keys_of n))
            (sym (has-append x (keys_of m) (keys_of n)) ∙ e) in
        rw (lookup-keys_of x m neither.0, lookup-keys_of x n neither.1) (idle x)
  ]

  pub each_key-both_keys : (each_key at (both_keys m n) ≡ []) ↔ ((x : Str) → at x ≡ [])
  each_key-both_keys = (at-nil, each_key-all_nil at (both_keys m n))
