-- ===== src/Updates/Differences/Paths/Closed.antt =====
-- packages/updates/src/differences.ts: when pathParameterNames returns.
use api_truth.Prelude.{
  ℕ, zero, suc, ◌≤◌, ◌<◌, ◌==◌, Bool, true, false, ◌&&◌, ◌||◌, not, ◌≡◌, refl, sym, ap, ◌∙◌, Option,
  none, some, [], ◌∷◌, arith, inl, inr, Bool-cases, Option-cases, length,
}
use api_truth.Prelude.Text.{Str}
use api_truth.Orchestration.Canonical.Total.{is_some}
use api_truth.Ir.Names.{Cut, is_name_start, is_name_part, take_name, match_name}
use api_truth.Updates.Differences.Paths.{cut_brace, names_from}

-- Every opening brace has a closing one behind it.
unfoldable pub is_closed : Str → Bool
unfolding cut_brace
is_closed [] = true
is_closed (u ∷ s) = (not (u == b'{') || is_some (cut_brace s)) && is_closed s

-- The loop goes on behind a cut with what is as closed, and not longer.
pub record IsLater (rest s : Str) : Type 0 where
  pub closed : is_closed s ≡ is_closed rest
  pub short : length rest ≤ length s

IsLater-refl : (s : Str) → IsLater s s
IsLater-refl s = record { closed = refl; short = omega arith }

abbrev rest_of : Option Cut → Str
rest_of none = []
rest_of (some c) = c.rest

cut_brace-IsLater : (s : Str) (c : Cut) → cut_brace s ≡ some c → IsLater c.rest s
unfolding cut_brace is_closed
cut_brace-IsLater [] c h = cc
cut_brace-IsLater (u ∷ s) c h = elim (Bool-cases (u == b'}')) [
  | inl e ↦
      let cut : some (record { body = []; rest = s }) ≡ some c = ground (arith, e, h) in
      let same : s ≡ c.rest = ap rest_of cut in
      rw (← same) (record { closed = ground (arith, e); short = omega arith })
  | inr e ↦ elim (Option-cases (cut_brace s)) [
    | inl f ↦ ground (arith, e, f, h)
    | inr (d, f) ↦
        let ih = cut_brace-IsLater s d f in
        let cut : some (record { body = u ∷ d.body; rest = d.rest }) ≡ some c =
          ground (arith, e, f, h) in
        let same : d.rest ≡ c.rest = ap rest_of cut in
        rw (← same)
          (record { closed = ground (arith, f, ih.closed); short = omega (arith, ih.short) })
  ]
]

take_name-IsLater : (s : Str) → IsLater (take_name s).rest s
unfolding take_name is_closed is_name_part is_name_start
take_name-IsLater [] = IsLater-refl []
take_name-IsLater (u ∷ s) = elim (Bool-cases (is_name_part u)) [
  | inl e ↦
      let ih = take_name-IsLater s in
      rw (e, take_name)
        (record { closed = ground (arith, e, ih.closed); short = omega (arith, ih.short) })
  | inr e ↦ rw (e, take_name) (IsLater-refl (u ∷ s))
]

pub match_name-IsLater : (s : Str) (c : Cut) → match_name s ≡ some c → IsLater c.rest s
unfolding match_name
match_name-IsLater [] c h = cc
match_name-IsLater (u ∷ s) c h = elim (Bool-cases (is_name_start u)) [
  | inl e ↦
      let cut : some (take_name (u ∷ s)) ≡ some c = ground (arith, e, h) in
      let same : (take_name (u ∷ s)).rest ≡ c.rest = ap rest_of cut in
      rw (← same) (take_name-IsLater (u ∷ s))
  | inr e ↦ ground (arith, e, h)
]

-- One round: the loop goes on with a later part, stops, or starts again.
data Round (path u_s : Str) : Type 0 where
  goes_on :
      (rest : Str)
      → IsLater rest u_s
      → length rest < length u_s
      → ((n : ℕ) → is_some (names_from (suc n) path u_s) ≡ is_some (names_from n path rest))
      → Round path u_s
  starts_again :
      is_closed u_s ≡ false
      → ((n : ℕ) → is_some (names_from (suc n) path u_s) ≡ is_some (names_from n path path))
      → Round path u_s

IsLater_lem :
    (u : ℕ) (s rest : Str)
    → not (u == b'{') || is_some (cut_brace s) ≡ true
    → IsLater rest s
    → IsLater rest (u ∷ s)
IsLater_lem u s rest h l = record {
  closed = unfold is_closed in ground (arith, h, l.closed);
  short = omega (arith, l.short);
}

round : (path : Str) (u : ℕ) (s : Str) → Round path (u ∷ s)
round path u s = elim (Bool-cases (u == b'{')) [
  | inl e ↦ elim (Option-cases (cut_brace s)) [
    | inl f ↦
        starts_again (unfold is_closed in ground (arith, e, f))
          (λ n. unfold names_from in ground (arith, e, f))
    | inr (c, f) ↦
        let later = cut_brace-IsLater s c f in
        goes_on c.rest (IsLater_lem u s c.rest (ground (arith, f)) later)
          (omega (arith, later.short)) (λ n. unfold names_from in ground (arith, e, f))
  ]
  | inr e ↦ elim (Bool-cases (u == b':')) [
    | inl f ↦ elim (Option-cases (match_name s)) [
      | inl g ↦
          goes_on s (IsLater_lem u s s (ground (arith, e)) (IsLater-refl s)) (omega arith)
            (λ n. unfold names_from in ground (arith, e, f, g))
      | inr (c, g) ↦
          let later = match_name-IsLater s c g in
          goes_on c.rest (IsLater_lem u s c.rest (ground (arith, e)) later)
            (omega (arith, later.short)) (λ n. unfold names_from in ground (arith, e, f, g))
    ]
    | inr f ↦
        goes_on s (IsLater_lem u s s (ground (arith, e)) (IsLater-refl s)) (omega arith)
          (λ n. unfold names_from in ground (arith, e, f))
  ]
]

pub names_from-returns :
    (n : ℕ) (path s : Str)
    → is_closed s ≡ true
    → length s < n
    → is_some (names_from n path s) ≡ true
names_from-returns zero path s h k = absurd (omega arith)
names_from-returns (suc n) path [] h k = unfold names_from in refl
names_from-returns (suc n) path (u ∷ s) h k = elim (round path u s) [
  | goes_on rest later shorter step ↦
      step n ∙ names_from-returns n path rest (sym later.closed ∙ h) (omega (arith, shorter, k))
  | starts_again e step ↦ cc (e, h)
]

pub names_from-loops :
    (n : ℕ) (path s : Str)
    → is_closed path ≡ false
    → is_closed s ≡ false
    → is_some (names_from n path s) ≡ false
names_from-loops zero path s h k = unfold names_from in refl
names_from-loops (suc n) path [] h k = unfold is_closed in cc k
names_from-loops (suc n) path (u ∷ s) h k = elim (round path u s) [
  | goes_on rest later shorter step ↦ step n ∙ names_from-loops n path rest h (sym later.closed ∙ k)
  | starts_again e step ↦ step n ∙ names_from-loops n path path h h
]

-- With more rounds than the path has units, however many, the search for path parameters returns
-- exactly if every opening brace of the path has a closing one behind it.
pub names_from-is_closed :
    (n : ℕ) (path : Str) → length path < n → is_some (names_from n path path) ≡ is_closed path
names_from-is_closed n path h = elim (Bool-cases (is_closed path)) [
  | inl e ↦ names_from-returns n path path e h ∙ sym e
  | inr e ↦ names_from-loops n path path e e ∙ sym e
]
