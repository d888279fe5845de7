-- ===== src/Updates/Differences/Paths/Constraint.antt =====
-- packages/ir/src/identity.ts and packages/updates/src/differences.ts: an opening brace in the
-- constraint of a path parameter.
use api_truth.Prelude.{
  ℕ, zero, suc, ◌+◌, ◌==◌, Bool, true, false, ◌&&◌, not, ◌≡◌, refl, ap, ◌∙◌, [], ◌∷◌, ◌++◌, all,
  arith, length, length-append,
}
use api_truth.Prelude.Text.{Str, lit}
use api_truth.Orchestration.Canonical.Total.{is_some}
use api_truth.Ir.Identity.{shape, behind, normalize_from, normalize_application_path_shape}
use api_truth.Updates.Differences.Paths.{cut_brace, names_from}
use api_truth.Updates.Differences.Paths.Closed.{is_closed, names_from-loops}

-- No brace and no colon in the text.
abbrev pub literal_text : Str → Bool
literal_text s = all (λ (u : ℕ). not (u == b'{') && (not (u == b'}') && not (u == b':'))) s

-- A parameter whose constraint is the regular expression of an opening brace.
abbrev pub brace_parameter : Str
brace_parameter = lit ":id(\\{)"

open_behind : (prefix s : Str) → is_closed s ≡ false → is_closed (prefix ++ s) ≡ false
unfolding is_closed
open_behind [] s h = h
open_behind (u ∷ prefix) s h = ground (arith, open_behind prefix s h)

literal_step :
    (compiles : Str → Bool) (m u : ℕ) (s : Str)
    → literal_text (u ∷ []) ≡ true
    → normalize_from compiles (suc m) (u ∷ s) ≡ behind (u ∷ []) (normalize_from compiles m s)
unfolding normalize_from
literal_step compiles m u s h = ground (arith, h)

normalize_from-literal_text :
    (compiles : Str → Bool) (m n : ℕ) (prefix s t : Str)
    → m ≡ length prefix + n
    → literal_text prefix ≡ true
    → normalize_from compiles n s ≡ shape t
    → normalize_from compiles m (prefix ++ s) ≡ shape (prefix ++ t)
normalize_from-literal_text compiles m n [] s t e h k =
    let same : m ≡ n = omega (arith, e) in rw same k
normalize_from-literal_text compiles zero n (u ∷ prefix) s t e h k = absurd (omega (arith, e))
normalize_from-literal_text compiles (suc m) n (u ∷ prefix) s t e h k =
    literal_step compiles m u (prefix ++ s) (ground (arith, h))
    ∙ ap (behind (u ∷ [])) (
        normalize_from-literal_text compiles m n prefix s t (omega (arith, e)) (ground (arith, h))
          k)

normalize_from-brace_parameter :
    (compiles : Str → Bool)
    → compiles (lit "\\{") ≡ true
    → normalize_from compiles 8 brace_parameter ≡ shape (lit "{:\\{}")
unfolding normalize_from
normalize_from-brace_parameter compiles h = rw h refl

-- With a constraint that is the regular expression of an opening brace, which compiles, the path of
-- an endpoint is accepted, and the search for the names of its parameters does not return, however
-- many rounds it has.
pub normalize_application_path_shape-brace_parameter :
    (compiles : Str → Bool) (prefix : Str)
    → compiles (lit "\\{") ≡ true
    → literal_text prefix ≡ true
    → (normalize_application_path_shape compiles (prefix ++ brace_parameter)
        ≡ shape (prefix ++ lit "{:\\{}"))
      × ((n : ℕ)
          → is_some (names_from n (prefix ++ brace_parameter) (prefix ++ brace_parameter)) ≡ false)
unfolding normalize_application_path_shape
normalize_application_path_shape-brace_parameter compiles prefix h k =
    let path = prefix ++ brace_parameter in
    let open_path : is_closed path ≡ false =
      open_behind prefix brace_parameter (unfold is_closed cut_brace in refl) in
    (
      normalize_from-literal_text compiles (suc (length path)) 8 prefix brace_parameter
          (lit "{:\\{}") (omega (arith, length-append prefix brace_parameter)) k
          (normalize_from-brace_parameter compiles h),
      λ n. names_from-loops n path path open_path open_path,
    )
