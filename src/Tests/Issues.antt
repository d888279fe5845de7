-- ===== src/Tests/Issues.antt =====
-- Runs of the sanitizers of issues at concrete inputs.
use api_truth.Prelude.{◌≡◌, ◌≢◌, refl, true, [], ◌∷◌, all}
use api_truth.Prelude.Text.{Str, lit, str_eq, split}
use api_truth.Issues.{sanitize_issue_path, orchestration_segments, orchestration_codes}
use api_truth.Issues.Safe.{is_clean, sanitize_issue_path-clean}

sanitize_issue_path-clean_example :
    (rest : Str) × (sanitize_issue_path orchestration_segments orchestration_codes
        (lit "/subjects/0/secret")
      ≡ b'/' ∷ rest)
    × ((rest ≢ [])
        → all (is_clean orchestration_segments orchestration_codes) (split b'/' rest) ≡ true)
sanitize_issue_path-clean_example =
    sanitize_issue_path-clean orchestration_segments orchestration_codes (lit "/subjects/0/secret")

sanitize_test :
    sanitize_issue_path orchestration_segments orchestration_codes (lit "/subjects/0/secret")
    ≡ lit "/subjects/0/*"
unfolding sanitize_issue_path str_eq
sanitize_test = refl
