-- ===== src/Observations/Template/Matching.antt =====
-- Templates against the paths that they match.
use api_truth.Prelude.{
  ◌≡◌, ◌≢◌, refl, Option-cases, Bool, true, false, none, some, List, [], ◌∷◌, all, arith, inl, inr,
}
use api_truth.Prelude.Text.{Str, str_eq_refl, split, slice_from}
use api_truth.Observations.Template.{
  TemplatePart, literal, parameter, parse_part, parse_parts, parse_template, match_parts,
  match_path,
}

abbrev pub is_literal : TemplatePart → Bool
is_literal (literal s) = true
is_literal parameter = false

none-ne-some : (parts : List TemplatePart) → none ≢ some parts
none-ne-some parts h = cc

some-inj : (a b : List TemplatePart) → some b ≡ some a → a ≡ b
some-inj a b h = cc

part_matches :
    (p : Str) (ps : List Str) (part : TemplatePart) (rest : List TemplatePart)
    → parse_part p ≡ some part
    → is_literal part ≡ true
    → match_parts ps rest ≡ true
    → match_parts (p ∷ ps) (part ∷ rest) ≡ true
unfolding parse_part match_parts
part_matches p ps part rest h k m = ground (arith, h, k, m, str_eq_refl p)

parts_match :
    (ps : List Str) (parts : List TemplatePart)
    → parse_parts ps ≡ some parts
    → all is_literal parts ≡ true
    → match_parts ps parts ≡ true
unfolding parse_parts match_parts
parts_match [] [] h k = refl
parts_match [] (q ∷ parts) h k = cc
parts_match (p ∷ ps) parts h k = elim (Option-cases (parse_part p)) [
  | inl bad ↦ absurd (none-ne-some parts (rw bad at h))
  | inr (part, good) ↦ elim (Option-cases (parse_parts ps)) [
    | inl bad ↦ absurd (none-ne-some parts (rw (good, bad) at h))
    | inr (rest, goods) ↦
        let same : parts ≡ part ∷ rest = some-inj parts (part ∷ rest) (rw (good, goods) at h) in
        let literals : all is_literal (part ∷ rest) ≡ true = rw same at k in
        rw same (
          part_matches p ps part rest good (ground (arith, literals))
            (parts_match ps rest goods (ground (arith, literals))))
  ]
]

-- A path that is a template without parameters matches itself.
pub match_path-parse_template :
    (path : Str) (parts : List TemplatePart)
    → parse_template path ≡ some parts
    → all is_literal parts ≡ true
    → match_path path parts ≡ true
unfolding parse_template match_path
match_path-parse_template path parts h k =
    ground (arith, h, k, parts_match (split b'/' (slice_from 1 path)) parts)
