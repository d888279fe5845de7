-- ===== src/Updates/Differences/Paths/Accepted.antt =====
-- packages/ir/src/identity.ts and packages/updates/src/differences.ts: the paths that an endpoint's
-- identity accepts, and the search for the names of their parameters.
use api_truth.Prelude.{
  ℕ, zero, suc, ◌==◌, Bool, true, false, not, ◌≡◌, refl, ap, sym, ◌∙◌, ◌⊎◌, Option, none, some, [],
  ◌∷◌, all, arith, inl, inr, Bool-cases, Option-cases, length,
}
use api_truth.Prelude.Text.{Str, lit}
use api_truth.Orchestration.Canonical.Total.{is_some}
use api_truth.Ir.Names.{Cut, is_name_start, is_name_part, take_name, match_name}
use api_truth.Ir.Identity.{
  Scan, Step, malformed, closes, continues, brace, scan_step, delimited, delimited_path_expression,
  braced_shape, braced_part, named_part, Normalized, shape, syntax_error, unfinished, behind,
  normalize_from, normalize_application_path_shape,
}
use api_truth.Updates.Differences.Paths.{cut_brace, names_from}
use api_truth.Updates.Differences.Paths.Closed.{is_closed, match_name-IsLater, names_from-returns}

-- No "(" in the text.
abbrev pub without_constraint : Str → Bool
without_constraint s = all (λ (u : ℕ). not (u == b'(')) s

abbrev rest_of : Option Cut → Str
rest_of none = []
rest_of (some c) = c.rest

-- What the scan for a closing brace finds.
record Balanced (rest s : Str) : Type 0 where
  closed : is_closed s ≡ is_closed rest
  found : is_some (cut_brace s) ≡ true
  kept : without_constraint s ≡ true → without_constraint rest ≡ true

closes-at_brace : (scan : Scan) (u : ℕ) → scan_step brace scan u ≡ closes → (u == b'}') ≡ true
unfolding scan_step
closes-at_brace scan u h = ground (arith, h)

Balanced-here : (u : ℕ) (s : Str) → (u == b'}') ≡ true → Balanced s (u ∷ s)
Balanced-here u s h = record {
  closed = unfold is_closed in ground (arith, h);
  found = unfold cut_brace in ground (arith, h);
  kept = λ k. ground (arith, k);
}

Balanced-later : (u : ℕ) (s rest : Str) → Balanced rest s → Balanced rest (u ∷ s)
Balanced-later u s rest b = record {
  closed = unfold is_closed in ground (arith, b.found, b.closed);
  found = unfold cut_brace in ground (arith, b.found);
  kept = λ k. b.kept (ground (arith, k));
}

delimited-Balanced :
    (scan : Scan) (s : Str) (c : Cut) → delimited brace scan s ≡ some c → Balanced c.rest s
unfolding delimited
delimited-Balanced scan [] c h = cc
delimited-Balanced scan (u ∷ s) c h =
    by_step (scan_step brace scan u) refl h (λ next d. delimited-Balanced next s d)
  where
    by_step :
        (t : Step)
        → scan_step brace scan u ≡ t
        → delimited brace scan (u ∷ s) ≡ some c
        → ((next : Scan) (d : Cut) → delimited brace next s ≡ some d → Balanced d.rest s)
        → Balanced c.rest (u ∷ s)
    by_step malformed e k ih = ground (arith, e, k)
    by_step closes e k ih =
        let cut : some (record { body = []; rest = s }) ≡ some c = ground (arith, e, k) in
        let same : s ≡ c.rest = ap rest_of cut in
        rw (← same) (Balanced-here u s (closes-at_brace scan u e))
    by_step (continues next) e k ih = elim (Option-cases (delimited brace next s)) [
      | inl f ↦ ground (arith, e, k, f)
      | inr (d, f) ↦
          let cut : some (record { body = u ∷ d.body; rest = d.rest }) ≡ some c =
            ground (arith, e, k, f) in
          let same : d.rest ≡ c.rest = ap rest_of cut in
          rw (← same) (Balanced-later u s d.rest (ih next d f))
    ]

kept-take_name :
    (s : Str) → without_constraint s ≡ true → without_constraint (take_name s).rest ≡ true
unfolding take_name
kept-take_name [] h = refl
kept-take_name (u ∷ s) h = elim (Bool-cases (is_name_part u)) [
  | inl e ↦ rw (e, take_name) (kept-take_name s (ground (arith, h)))
  | inr e ↦ rw (e, take_name) h
]

kept-match_name :
    (s : Str) (c : Cut)
    → match_name s ≡ some c
    → without_constraint s ≡ true
    → without_constraint c.rest ≡ true
unfolding match_name
kept-match_name [] c e h = cc
kept-match_name (u ∷ s) c e h = elim (Bool-cases (is_name_start u)) [
  | inl f ↦
      let cut : some (take_name (u ∷ s)) ≡ some c = ground (arith, e, f) in
      let same : (take_name (u ∷ s)).rest ≡ c.rest = ap rest_of cut in
      rw (← same) (kept-take_name (u ∷ s) h)
  | inr f ↦ ground (arith, e, f)
]

module _ (compiles : Str → Bool) where
  braced_part-Balanced : (s : Str) (c : Cut) → braced_part compiles s ≡ some c → Balanced c.rest s
  unfolding braced_part delimited_path_expression
  braced_part-Balanced s c h = elim (Option-cases (delimited_path_expression brace s)) [
    | inl e ↦ ground (arith, e, h)
    | inr (d, e) ↦ elim (Option-cases (braced_shape compiles d.body)) [
      | inl f ↦ ground (arith, e, f, h)
      | inr (text, f) ↦
          let cut : some (record { body = text; rest = d.rest }) ≡ some c =
            ground (arith, e, f, h) in
          let same : d.rest ≡ c.rest = ap rest_of cut in rw (← same) (delimited-Balanced _ s d e)
    ]
  ]

  named_part-plain :
      (s : Str)
      → without_constraint s ≡ true
      → named_part compiles s ≡ some (record { body = lit "{}"; rest = s })
  unfolding named_part
  named_part-plain [] h = refl
  named_part-plain (u ∷ s) h = ground (arith, h)

  abbrev accepted : Normalized → Bool
  accepted (shape s) = true
  accepted syntax_error = false
  accepted unfinished = false

  accepted-behind : (t : Str) (r : Normalized) → accepted (behind t r) ≡ accepted r
  accepted-behind t unfinished = refl
  accepted-behind t syntax_error = refl
  accepted-behind t (shape s) = refl

  -- One round's result, where there is one.
  record Went (u : ℕ) (s : Str) (n : ℕ) : Type 0 where
    text : Str
    rest : Str
    step : normalize_from compiles (suc n) (u ∷ s) ≡ behind text (normalize_from compiles n rest)
    closed : is_closed rest ≡ true → is_closed (u ∷ s) ≡ true
    kept : without_constraint rest ≡ true

  Went-braced :
      (u : ℕ) (s : Str) (n : ℕ)
      → without_constraint s ≡ true
      → (u == b'{') ≡ true
      → (c : Cut) → braced_part compiles s ≡ some c
      → Went u s n
  Went-braced u s n h e c f =
      let b = braced_part-Balanced s c f in
      record {
        text = c.body;
        rest = c.rest;
        step = unfold normalize_from in ground (arith, e, f);
        closed = λ k. unfold is_closed in ground (arith, b.found, b.closed, k);
        kept = b.kept h;
      }

  Went-named :
      (u : ℕ) (s : Str) (n : ℕ)
      → without_constraint s ≡ true
      → (u == b'{') ≡ false
      → (u == b':') ≡ true
      → (c : Cut) → match_name s ≡ some c
      → Went u s n
  Went-named u s n h e f c g =
      let later = match_name-IsLater s c g in
      let keeps = kept-match_name s c g h in
      record {
        text = lit "{}";
        rest = c.rest;
        step = unfold normalize_from in ground (arith, e, f, g, named_part-plain c.rest keeps);
        closed = λ k. unfold is_closed in ground (arith, e, later.closed, k);
        kept = keeps;
      }

  Went-plain :
      (u : ℕ) (s : Str) (n : ℕ)
      → without_constraint s ≡ true
      → (u == b'{') ≡ false
      → (u == b'}') ≡ false
      → (((u == b':') ≡ false) ⊎ (match_name s ≡ none))
      → Went u s n
  Went-plain u s n h e f (inl g) = record {
    text = u ∷ [];
    rest = s;
    step = unfold normalize_from in ground (arith, e, f, g);
    closed = λ k. unfold is_closed in ground (arith, e, k);
    kept = h;
  }
  Went-plain u s n h e f (inr g) = record {
    text = u ∷ [];
    rest = s;
    step = unfold normalize_from in ground (arith, e, f, g);
    closed = λ k. unfold is_closed in ground (arith, e, k);
    kept = h;
  }

  normalize_from-Went :
      (u : ℕ) (s : Str) (n : ℕ)
      → without_constraint s ≡ true
      → accepted (normalize_from compiles (suc n) (u ∷ s)) ≡ true
      → Went u s n
  normalize_from-Went u s n h k = elim (Bool-cases (u == b'{')) [
    | inl e ↦ elim (Option-cases (braced_part compiles s)) [
      | inl f ↦ absurd (unfold normalize_from in ground (arith, e, f, k))
      | inr (c, f) ↦ Went-braced u s n h e c f
    ]
    | inr e ↦ elim (Bool-cases (u == b'}')) [
      | inl f ↦ absurd (unfold normalize_from in ground (arith, e, f, k))
      | inr f ↦ elim (Bool-cases (u == b':')) [
        | inr g ↦ Went-plain u s n h e f (inl g)
        | inl g ↦ elim (Option-cases (match_name s)) [
          | inl m ↦ Went-plain u s n h e f (inr m)
          | inr (c, m) ↦ Went-named u s n h e g c m
        ]
      ]
    ]
  ]

  normalize_from-is_closed :
      (n : ℕ) (s : Str)
      → without_constraint s ≡ true
      → accepted (normalize_from compiles n s) ≡ true
      → is_closed s ≡ true
  normalize_from-is_closed zero s h k = unfold normalize_from in cc k
  normalize_from-is_closed (suc n) [] h k = unfold is_closed in refl
  normalize_from-is_closed (suc n) (u ∷ s) h k =
      let w = normalize_from-Went u s n (ground (arith, h)) k in
      w.closed (
        normalize_from-is_closed n w.rest w.kept (
          sym (accepted-behind w.text (normalize_from compiles n w.rest))
          ∙ ap accepted (sym w.step)
          ∙ k))

-- If the normalization for an endpoint's identity accepts a path without a "(", the search for the
-- names of its parameters returns.
pub names_from-normalize_application_path_shape :
    (compiles : Str → Bool) (path shape_text : Str)
    → without_constraint path ≡ true
    → normalize_application_path_shape compiles path ≡ shape shape_text
    → is_some (names_from (suc (length path)) path path) ≡ true
unfolding normalize_application_path_shape
names_from-normalize_application_path_shape compiles path shape_text h k =
    names_from-returns (suc (length path)) path path
      (normalize_from-is_closed compiles (suc (length path)) path h (ap (accepted compiles) k))
      (omega arith)
