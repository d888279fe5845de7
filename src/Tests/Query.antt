-- ===== src/Tests/Query.antt =====
-- Runs of packages/query/src/selector.ts at concrete inputs.
use api_truth.Prelude.{◌≡◌, refl, true, some}
use api_truth.Prelude.Text.{lit}
use api_truth.Query.Selector.{
  QuerySelector, QuerySelection, is_identifier, is_version, parse_query_selection,
}
use api_truth.Query.Selector.Parsed.{
  valid_selection, selection_json, parse_query_selection-selection_json,
  parse_query_selection-valid,
}

abbrev on_main : QuerySelection
on_main = record {
  tenant_id = lit "t";
  repository_id = lit "r";
  service_id = lit "orders";
  selector = QuerySelector.branch (lit "main") (some (lit "7"));
}

parse_query_selection-selection_json_example :
    parse_query_selection (selection_json on_main) ≡ some on_main
unfolding valid_selection is_identifier is_version
parse_query_selection-selection_json_example = parse_query_selection-selection_json on_main refl

parse_query_selection-valid_example : valid_selection on_main ≡ true
unfolding is_identifier is_version valid_selection
parse_query_selection-valid_example =
    parse_query_selection-valid (selection_json on_main) on_main
      (parse_query_selection-selection_json on_main refl)
