-- ===== src/Ir/Identity.antt =====
-- packages/ir/src/identity.ts: normalizeApplicationPathShape.
use api_truth.Prelude.{
  ℕ, zero, suc, ◌-◌, Bool, true, false, not, ◌&&◌, Option, none, some, [], ◌∷◌, ◌++◌, ◌==◌, length,
  if◌then◌else◌,
}
use api_truth.Prelude.Text.{Str, lit}
use api_truth.Ir.Names.{Cut, prepend, match_name, is_path_name}

-- The variables of delimitedPathExpression's loop.
pub record Scan : Type 0 where
  pub depth : ℕ
  pub in_character_class : Bool
  pub escaped : Bool

pub data Step : Type 0 where
  malformed closes : Step
  continues : Scan → Step

pub data Delimiter : Type 0 where
  brace parenthesis : Delimiter

abbrev pub opening : Delimiter → ℕ
opening brace = b'{'
opening parenthesis = b'('

abbrev pub closing : Delimiter → ℕ
closing brace = b'}'
closing parenthesis = b')'

-- if (opening === "{") pathSyntaxError(); depth += 1
unfoldable pub on_opening : Delimiter → Scan → Step
on_opening brace s = malformed
on_opening parenthesis s =
    continues (record {
      depth = suc s.depth;
      in_character_class = s.in_character_class;
      escaped = s.escaped;
    })

-- depth -= 1; if (depth === 0) return
unfoldable pub on_closing : Scan → Step
on_closing s =
    if s.depth == 1
    then closes
    else continues (record {
      depth = s.depth - 1;
      in_character_class = s.in_character_class;
      escaped = s.escaped;
    })

abbrev at : ℕ → (in_character_class escaped : Bool) → Step
at depth in_character_class escaped =
    continues (record { depth = depth; in_character_class = in_character_class; escaped = escaped })

-- One character.
unfoldable pub scan_step : Delimiter → Scan → ℕ → Step
unfolding on_opening on_closing
scan_step d s u =
    if s.escaped
    then at s.depth s.in_character_class false
    else if u == b'\\'
    then at s.depth s.in_character_class true
    else if u == b'[' && not s.in_character_class
    then at s.depth true false
    else if u == b']' && s.in_character_class
    then at s.depth false false
    else if s.in_character_class
    then continues s
    else if u == opening d
    then on_opening d s
    else if u == closing d
    then on_closing s
    else continues s

-- The body and what follows the closing delimiter, from behind the opening one.
unfoldable pub delimited : Delimiter → Scan → Str → Option Cut
unfolding scan_step prepend
delimited d scan [] = none
delimited d scan (u ∷ s) = elim (scan_step d scan u) [
  | malformed ↦ none
  | closes ↦ some (record { body = []; rest = s })
  | continues next ↦ prepend u (delimited d next s)
]

unfoldable pub delimited_path_expression : Delimiter → Str → Option Cut
unfolding delimited
delimited_path_expression d s =
    delimited d (record { depth = 1; in_character_class = false; escaped = false }) s

-- body.indexOf(":"), as what stands before and behind it
unfoldable pub cut_colon : Str → Option Cut
unfolding prepend
cut_colon [] = none
cut_colon (u ∷ s) =
    let later = prepend u (cut_colon s) in
    if u == b':' then some (record { body = []; rest = s }) else later

-- The loop has used its rounds, threw an error, or returned a shape.
pub data Normalized : Type 0 where
  unfinished syntax_error : Normalized
  shape : Str → Normalized

abbrev pub behind : Str → Normalized → Normalized
behind text unfinished = unfinished
behind text syntax_error = syntax_error
behind text (shape s) = shape (text ++ s)

-- `compiles`: new RegExp(`^(?:${constraint})$`) does not throw.
module _ (compiles : Str → Bool) where
  -- validatePathConstraint
  unfoldable pub path_constraint : Str → Option Str
  path_constraint [] = none
  path_constraint (u ∷ s) =
      if compiles (u ∷ s) then some (lit "{:" ++ ((u ∷ s) ++ lit "}")) else none

  -- What a placeholder in braces adds to the shape.
  unfoldable pub braced_shape : Str → Option Str
  unfolding cut_colon is_path_name path_constraint
  braced_shape body = elim (cut_colon body) [
    | none ↦ if is_path_name body then some (lit "{}") else none
    | some c ↦ if is_path_name c.body then path_constraint c.rest else none
  ]

  -- What a constraint in parentheses behind a name adds, and what follows it.
  unfoldable pub named_part : Str → Option Cut
  unfolding delimited_path_expression path_constraint
  named_part [] = some (record { body = lit "{}"; rest = [] })
  named_part (u ∷ s) =
      let constrained : Option Cut = elim (delimited_path_expression parenthesis s) [
        | none ↦ none
        | some c ↦ elim (path_constraint c.body) [
          | none ↦ none
          | some text ↦ some (record { body = text; rest = c.rest })
        ]
      ] in
      if u == b'(' then constrained else some (record { body = lit "{}"; rest = u ∷ s })

  -- The placeholder behind an opening brace.
  unfoldable pub braced_part : Str → Option Cut
  unfolding delimited_path_expression braced_shape
  braced_part s = elim (delimited_path_expression brace s) [
    | none ↦ none
    | some c ↦ elim (braced_shape c.body) [
      | none ↦ none
      | some text ↦ some (record { body = text; rest = c.rest })
    ]
  ]

  -- From here on, in `n` rounds: `here` is path.slice(index).
  unfoldable pub normalize_from : ℕ → Str → Normalized
  unfolding braced_part named_part match_name
  normalize_from zero here = unfinished
  normalize_from (suc n) [] = shape []
  normalize_from (suc n) (u ∷ s) =
      let go : Option Cut → Normalized = λ part. elim part [
        | none ↦ syntax_error
        | some c ↦ behind c.body (normalize_from n c.rest)
      ] in
      let plain = behind (u ∷ []) (normalize_from n s) in
      let named : Normalized = elim (match_name s) [
        | none ↦ plain
        | some c ↦ go (named_part c.rest)
      ] in
      if u == b'{'
      then go (braced_part s)
      else if u == b'}'
      then syntax_error
      else if u == b':'
      then named
      else plain

  unfoldable pub normalize_application_path_shape : Str → Normalized
  unfolding normalize_from
  normalize_application_path_shape path = normalize_from (suc (length path)) path
