-- ===== src/Tests/Ordering.antt =====
-- Runs of packages/orchestration/src/ordering.ts at concrete inputs.
use api_truth.Prelude.{◌≡◌, refl, true, some, if◌then◌else◌, ◌&&◌}
use api_truth.Prelude.Text.{Str, lit}
use api_truth.Json.{str}
use api_truth.Orchestration.Errors.{ok}
use api_truth.Orchestration.Canonical.{same_text, serialize}
use api_truth.Orchestration.Ordering.{
  OrderKind, Checkpoint, SequenceOrder, compare_canonical_sequence, is_canonical_decimal, classify,
  is_monotone, same_semantic_checkpoint,
}
use api_truth.Orchestration.Ordering.Decimal.{value, compare_numbers, compare_canonical_sequence-eq}
use api_truth.Orchestration.Ordering.Updates.{
  AreOrdered, verdict, classify-AreOrdered, is_monotone_trans,
}

abbrev event : Str → Str → Checkpoint
event sequence payload = record {
  evidence = record {
    provider = lit "git";
    provider_reference = lit "event-1";
    order = some (record { kind = OrderKind.sequence; value = sequence });
  };
  evidence_json = str sequence;
  relevant_payload = str payload;
}

compare_canonical_sequence_example : compare_canonical_sequence (lit "9") (lit "10") ≡ (
    if is_canonical_decimal (lit "9") && is_canonical_decimal (lit "10")
    then compare_numbers (value (lit "9")) (value (lit "10"))
    else SequenceOrder.invalid)
compare_canonical_sequence_example = compare_canonical_sequence-eq (lit "9") (lit "10")

nine_ten-AreOrdered : AreOrdered (event (lit "9") (lit "x")) (event (lit "10") (lit "x")) 9 10
unfolding is_canonical_decimal value
nine_ten-AreOrdered = record {
  old_value = lit "9";
  new_value = lit "10";
  same_provider = refl;
  old_sequence = refl;
  new_sequence = refl;
  old_canonical = refl;
  new_canonical = refl;
  old_number = refl;
  new_number = refl;
}

ten-AreOrdered : AreOrdered (event (lit "10") (lit "x")) (event (lit "10") (lit "x")) 10 10
unfolding is_canonical_decimal value
ten-AreOrdered = record {
  old_value = lit "10";
  new_value = lit "10";
  same_provider = refl;
  old_sequence = refl;
  new_sequence = refl;
  old_canonical = refl;
  new_canonical = refl;
  old_number = refl;
  new_number = refl;
}

classify-AreOrdered_example :
    classify (some (event (lit "10") (lit "x"))) (event (lit "10") (lit "x"))
    ≡ ok (verdict (event (lit "10") (lit "x")) (event (lit "10") (lit "x")) 10 10 true)
unfolding same_text serialize
classify-AreOrdered_example =
    classify-AreOrdered (event (lit "10") (lit "x")) (event (lit "10") (lit "x")) 10 10
      ten-AreOrdered refl

is_monotone_trans_example :
    is_monotone (event (lit "9") (lit "x")) (event (lit "10") (lit "x")) ≡ ok true
unfolding is_monotone same_text serialize same_semantic_checkpoint
is_monotone_trans_example =
    is_monotone_trans (event (lit "9") (lit "x")) (event (lit "10") (lit "x"))
      (event (lit "10") (lit "x")) 9 10 10 nine_ten-AreOrdered ten-AreOrdered refl refl
