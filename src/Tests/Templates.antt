-- ===== src/Tests/Templates.antt =====
-- Runs of packages/observations/src/matcher.ts at concrete inputs.
use api_truth.Prelude.{◌≡◌, refl, true, List, [], ◌∷◌}
use api_truth.Prelude.Text.{lit}
use api_truth.Observations.Template.{TemplatePart, match_path}

abbrev orders : List TemplatePart
orders = TemplatePart.literal (lit "orders") ∷ TemplatePart.literal (lit "open") ∷ []

literal_test : match_path (lit "/orders/open") orders ≡ true
unfolding match_path
literal_test = refl

parameter_test :
    match_path (lit "/orders/7") (TemplatePart.literal (lit "orders") ∷ TemplatePart.parameter ∷ [])
    ≡ true
unfolding match_path
parameter_test = refl
