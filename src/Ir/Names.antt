-- ===== src/Ir/Names.antt =====
-- packages/ir/src/identity.ts and packages/updates/src/differences.ts: the names of path parameters.
use api_truth.Prelude.{
  ℕ, Bool, false, ◌&&◌, ◌||◌, Option, none, some, [], ◌∷◌, ◌==◌, leb, all, if◌then◌else◌,
}
use api_truth.Prelude.Text.{Str}

-- A part of a path and what follows it.
pub record Cut : Type 0 where
  pub body : Str
  pub rest : Str

unfoldable pub prepend : ℕ → Option Cut → Option Cut
prepend u none = none
prepend u (some c) = some (record { body = u ∷ c.body; rest = c.rest })

unfoldable pub is_name_start : ℕ → Bool
is_name_start u = leb b'A' u && leb u b'Z' || (leb b'a' u && leb u b'z' || u == b'_')

unfoldable pub is_name_part : ℕ → Bool
unfolding is_name_start
is_name_part u = is_name_start u || leb b'0' u && leb u b'9'

-- The longest prefix of name parts, and the rest.
unfoldable pub take_name : Str → Cut
unfolding is_name_part
take_name [] = record { body = []; rest = [] }
take_name (u ∷ s) =
    let cut = take_name s in
    if is_name_part u
    then record { body = u ∷ cut.body; rest = cut.rest }
    else record { body = []; rest = u ∷ s }

-- path.slice(index + 1).match(/^[A-Za-z_][A-Za-z0-9_]*/)
unfoldable pub match_name : Str → Option Cut
unfolding take_name is_name_start
match_name [] = none
match_name (u ∷ s) = if is_name_start u then some (take_name (u ∷ s)) else none

-- pathName, /^[A-Za-z_][A-Za-z0-9_]*$/
unfoldable pub is_path_name : Str → Bool
unfolding is_name_start is_name_part
is_path_name [] = false
is_path_name (u ∷ s) = is_name_start u && all is_name_part s
