-- ===== src/Issues/Safe.antt =====
-- Nothing but safe segments and codes is left of an issue.
use api_truth.Prelude.{
  ◌≡◌, ◌≢◌, refl, Bool, true, ◌||◌, not, List, [], ◌∷◌, ◌++◌, map, all, ◌==◌, arith, Bool-cases,
  inl, inr,
}
use api_truth.Prelude.Text.{Str, lit, str_eq, split}
use api_truth.Issues.{join_path, is_safe_segment, sanitize_segment, sanitize_issue_path}

-- No slash in the segment.
abbrev whole : Str → Bool
whole s = all (λ c. not (c == b'/')) s

split-whole : (s : Str) → whole s ≡ true → split b'/' s ≡ s ∷ []
unfolding split
split-whole [] h = refl
split-whole (c ∷ s) h = ground (arith, split-whole s)

split-append : (s t : Str) → whole s ≡ true → split b'/' (s ++ b'/' ∷ t) ≡ s ∷ split b'/' t
unfolding split
split-append [] t h = refl
split-append (c ∷ s) t h = ground (arith, split-append s t)

split-join_path :
    (x : Str) (xs : List Str) → all whole (x ∷ xs) ≡ true → split b'/' (join_path (x ∷ xs)) ≡ x ∷ xs
unfolding join_path
split-join_path x [] h = split-whole x (ground (arith, h))
split-join_path x (y ∷ xs) h =
    rw (split-append x (join_path (y ∷ xs)) (ground (arith, h)))
      (rw (split-join_path y xs (ground (arith, h))) refl)

all-whole-split : (s : Str) → all whole (split b'/' s) ≡ true
unfolding split
all-whole-split [] = refl
all-whole-split (c ∷ s) = ground (arith, all-whole-split s)

module _ (safe_segments safe_codes : List Str) where
  whole-sanitize :
      (s : Str) → whole s ≡ true → whole (sanitize_segment safe_segments safe_codes s) ≡ true
  unfolding sanitize_segment
  whole-sanitize s h = ground (arith, h)

  all-whole-sanitize :
      (xs : List Str)
      → all whole xs ≡ true
      → all whole (map (sanitize_segment safe_segments safe_codes) xs) ≡ true
  all-whole-sanitize [] h = refl
  all-whole-sanitize (x ∷ xs) h =
      rw (whole-sanitize x (ground (arith, h))) (all-whole-sanitize xs (ground (arith, h)))

  -- A segment that may stand in an issue.
  abbrev pub is_clean : Str → Bool
  is_clean s = is_safe_segment safe_segments safe_codes s || str_eq s (lit "*")

  sanitize_segment-clean : (s : Str) → is_clean (sanitize_segment safe_segments safe_codes s) ≡ true
  unfolding sanitize_segment str_eq
  sanitize_segment-clean s = ground arith

  map-clean :
      (xs : List Str) → all is_clean (map (sanitize_segment safe_segments safe_codes) xs) ≡ true
  map-clean [] = refl
  map-clean (x ∷ xs) = rw (sanitize_segment-clean x) (map-clean xs)

  joined-clean :
      (xs : List Str)
      → all whole xs ≡ true
      → join_path (map (sanitize_segment safe_segments safe_codes) xs) ≢ []
      → all is_clean (split b'/' (join_path (map (sanitize_segment safe_segments safe_codes) xs)))
        ≡ true
  joined-clean [] h n = absurd (n (unfold join_path in refl))
  joined-clean (x ∷ xs) h n =
      rw
        (split-join_path (sanitize_segment safe_segments safe_codes x)
          (map (sanitize_segment safe_segments safe_codes) xs) (all-whole-sanitize (x ∷ xs) h))
        (map-clean (x ∷ xs))

-- Behind the leading slash of a sanitized path every segment is a canonical decimal, one of the safe
-- segments, or a star, unless nothing is there.
pub sanitize_issue_path-clean :
    (safe_segments safe_codes : List Str) (path : Str)
    → (rest : Str) × (sanitize_issue_path safe_segments safe_codes path ≡ b'/' ∷ rest)
      × ((rest ≢ []) → all (is_clean safe_segments safe_codes) (split b'/' rest) ≡ true)
unfolding sanitize_issue_path
sanitize_issue_path-clean segments codes [] = ([], refl, λ n. absurd (n refl))
sanitize_issue_path-clean segments codes (c ∷ []) = ([], refl, λ n. absurd (n refl))
sanitize_issue_path-clean segments codes (c ∷ d ∷ s) = elim (Bool-cases (c == b'/')) [
  | inl slash ↦ (
    join_path (map (sanitize_segment segments codes) (split b'/' (d ∷ s))),
    rw slash refl,
    λ n. joined-clean segments codes (split b'/' (d ∷ s)) (all-whole-split (d ∷ s)) n,
  )
  | inr other ↦ ([], rw other refl, λ n. absurd (n refl))
]
