-- ===== src/Observations/Template.antt =====
-- packages/observations/src/matcher.ts: path templates, and the paths that they match.
pub mod Matching
use api_truth.Prelude.{
  ℕ, Bool, true, false, ◌&&◌, ◌||◌, not, Option, none, some, List, [], ◌∷◌, ◌++◌, map, all, any,
  leb, ltb, ◌==◌, if◌then◌else◌, length,
}
use api_truth.Prelude.Text.{Str, lit, str_eq, split, slice_from}
use api_truth.Orchestration.Canonical.{◌>>=◌}
use api_truth.Issues.{join_path}

pub data TemplatePart : Type 0 where
  literal : Str → TemplatePart
  parameter : TemplatePart

abbrev is_alpha : ℕ → Bool
is_alpha c = (leb b'A' c && leb c b'Z') || (leb b'a' c && leb c b'z')

abbrev is_alphanumeric : ℕ → Bool
is_alphanumeric c = is_alpha c || (leb b'0' c && leb c b'9')

-- [A-Za-z0-9._~-]
abbrev is_segment_unit : ℕ → Bool
is_segment_unit c = is_alphanumeric c || (c == b'.' || (c == b'_' || (c == b'~' || c == b'-')))

unfoldable pub is_segment : Str → Bool
is_segment [] = false
is_segment (c ∷ s) = all is_segment_unit (c ∷ s)

abbrev is_name_start : ℕ → Bool
is_name_start c = is_alpha c || c == b'_'

abbrev is_name_unit : ℕ → Bool
is_name_unit c = is_alphanumeric c || c == b'_'

-- [A-Za-z0-9_]*\}
ends_name : Str → Bool
ends_name [] = false
ends_name (c ∷ []) = c == b'}'
ends_name (c ∷ d ∷ s) = is_name_unit c && ends_name (d ∷ s)

unfoldable pub is_parameter : Str → Bool
unfolding ends_name
is_parameter (c ∷ d ∷ s) =
    is_name_start d && ((c == b'{' && ends_name s) || (c == b':' && all is_name_unit s))
is_parameter _ = false

-- value !== "." && value !== ".."
abbrev no_dots : Str → Bool
no_dots s = not (str_eq s (lit ".")) && not (str_eq s (lit ".."))

abbrev not_empty : Str → Bool
not_empty [] = false
not_empty (c ∷ s) = true

unfoldable pub parse_part : Str → Option TemplatePart
unfolding is_parameter is_segment str_eq
parse_part part =
    if not (not_empty part && no_dots part)
    then none
    else if is_parameter part
    then some parameter
    else if is_segment part
    then some (literal part)
    else none

unfoldable pub parse_parts : List Str → Option (List TemplatePart)
unfolding parse_part
parse_parts [] = some []
parse_parts (p ∷ ps) = do part ← parse_part p; parts ← parse_parts ps; some (part ∷ parts)

abbrev includes : ℕ → Str → Bool
includes c s = any (λ d. d == c) s

-- path.includes("//")
double_slash : Str → Bool
double_slash [] = false
double_slash (c ∷ []) = false
double_slash (c ∷ d ∷ s) = (c == b'/' && d == b'/') || double_slash (d ∷ s)

abbrev starts_slash : Str → Bool
starts_slash [] = false
starts_slash (c ∷ s) = c == b'/'

unfoldable pub parse_template : Str → Option (List TemplatePart)
unfolding double_slash parse_parts slice_from split str_eq
parse_template path =
    if ltb 1024 (length path)
      || not (starts_slash path)
      || double_slash path
      || includes b'%' path
      || includes b'\\' path
      || includes b'?' path
      || includes b'#' path
    then none
    else if str_eq path (lit "/")
    then some []
    else if ltb 64 (length (split b'/' (slice_from 1 path)))
    then none
    else parse_parts (split b'/' (slice_from 1 path))

abbrev part_text : TemplatePart → Str
part_text (literal s) = s
part_text parameter = lit "{}"

unfoldable pub shape : List TemplatePart → Str
unfolding join_path
shape parts = b'/' ∷ join_path (map part_text parts)

abbrev pub fits : TemplatePart → Str → Bool
fits (literal s) value = str_eq s value
fits parameter value = true

-- values.length === parts.length && values.every(...)
unfoldable pub match_parts : List Str → List TemplatePart → Bool
unfolding is_segment str_eq
match_parts [] [] = true
match_parts [] (p ∷ ps) = false
match_parts (v ∷ vs) [] = false
match_parts (v ∷ vs) (p ∷ ps) =
    not_empty v && is_segment v && no_dots v && fits p v && match_parts vs ps

abbrev no_parts : List TemplatePart → Bool
no_parts [] = true
no_parts (p ∷ ps) = false

unfoldable pub match_path : Str → List TemplatePart → Bool
unfolding match_parts slice_from split str_eq
match_path path parts =
    if str_eq path (lit "/")
    then no_parts parts
    else match_parts (split b'/' (slice_from 1 path)) parts
