-- ===== src/Updates/Differences/Paths.antt =====
-- packages/updates/src/differences.ts: pathParameterNames.
pub mod Closed
pub mod Accepted
pub mod Constraint
use api_truth.Prelude.{
  ℕ, zero, suc, ◌+◌, Bool, true, false, ◌&&◌, ◌||◌, Option, none, some, List, [], ◌∷◌, ◌==◌, leb,
  length, if◌then◌else◌,
}
use api_truth.Prelude.Text.{Str, split}
use api_truth.Ir.Names.{Cut, prepend, match_name}
use api_truth.Updates.Differences.Canonical.{canonical_strings}

-- The text before the first "}" and what follows it, as path.indexOf("}") and path.slice give them.
unfoldable pub cut_brace : Str → Option Cut
unfolding prepend
cut_brace [] = none
cut_brace (u ∷ s) =
    let later = prepend u (cut_brace s) in
    if u == b'}' then some (record { body = []; rest = s }) else later

-- body.split(":", 1)[0]
unfoldable pub name_of_body : Str → Str
name_of_body [] = []
name_of_body (u ∷ s) = let rest = name_of_body s in if u == b':' then [] else u ∷ rest

-- path.slice(index + 1, -1)
unfoldable pub all_but_last : Str → Str
all_but_last [] = []
all_but_last (u ∷ []) = []
all_but_last (u ∷ v ∷ s) = u ∷ all_but_last (v ∷ s)

push : Str → Option (List Str) → Option (List Str)
push name none = none
push name (some names) = some (name ∷ names)

-- The names from here on: `here` is path.slice(index). Behind an opening brace that nothing closes,
-- indexOf answers -1 and the loop starts again at the front.
unfoldable pub names_from : ℕ → Str → Str → Option (List Str)
unfolding push cut_brace name_of_body all_but_last match_name
names_from zero path here = none
names_from (suc n) path [] = some []
names_from (suc n) path (u ∷ s) =
    let braced : Option (List Str) = elim (cut_brace s) [
      | some c ↦ push (name_of_body c.body) (names_from n path c.rest)
      | none ↦ push (name_of_body (all_but_last s)) (names_from n path path)
    ] in
    let named : Option (List Str) = elim (match_name s) [
      | some c ↦ push c.body (names_from n path c.rest)
      | none ↦ names_from n path s
    ] in
    let next = names_from n path s in
    if u == b'{' then braced else if u == b':' then named else next

-- With one round more than the path has units; `none` if the loop does not end, as on a path with an
-- opening brace that nothing closes.
unfoldable pub path_parameter_names : Str → Option (List Str)
unfolding names_from canonical_strings
path_parameter_names path = elim (names_from (suc (length path)) path path) [
  | none ↦ none
  | some names ↦ some (canonical_strings names)
]
