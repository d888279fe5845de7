-- ===== src/Orchestration/Ordering/Updates.antt =====
-- What `classifyProviderUpdate` means, in the numbers that the sequences write.
use api_truth.Prelude.{ℕ, ◌≤◌, ◌≡◌, Bool, true, ◌&&◌, ltb, if◌then◌else◌, some, arith, ◌∙◌}
use api_truth.Prelude.Text.{Str, str_eq, str_eq_iff}
use api_truth.Orchestration.Canonical.{same_text}
use api_truth.Orchestration.Canonical.Texts.{same_text_trans}
use api_truth.Orchestration.Errors.{ok}
use api_truth.Orchestration.Ordering.Decimal.{value, compare_numbers, compare_canonical_sequence-eq}
use api_truth.Orchestration.Ordering.{
  is_canonical_decimal, Checkpoint, Classification, exact_replay, stale, conflict, sequence_value,
  classify, is_monotone, classify_against, by_sequence, same_semantic_checkpoint,
}

-- Both checkpoints come from one provider and carry canonical sequences with these numbers.
pub record AreOrdered (c d : Checkpoint) (n m : ℕ) : Type 0 where
  pub old_value : Str
  pub new_value : Str
  pub same_provider : c.evidence.provider ≡ d.evidence.provider
  pub old_sequence : sequence_value c ≡ some old_value
  pub new_sequence : sequence_value d ≡ some new_value
  pub old_canonical : is_canonical_decimal old_value ≡ true
  pub new_canonical : is_canonical_decimal new_value ≡ true
  pub old_number : value old_value ≡ n
  pub new_number : value new_value ≡ m

-- The classification of ordered checkpoints is decided by their numbers.
classify_by_numbers :
    (c d : Checkpoint) (n m : ℕ)
    → AreOrdered c d n m
    → classify (some c) d ≡ by_sequence c d (compare_numbers n m)
unfolding classify classify_against
classify_by_numbers c d n m o = ground (
  arith,
  str_eq_iff c.evidence.provider d.evidence.provider,
  compare_canonical_sequence-eq o.old_value o.new_value,
)

-- How two ordered checkpoints stand, `agree` if their payloads have one text.
unfoldable pub verdict : (c d : Checkpoint) (n m : ℕ) (agree : Bool) → Classification
unfolding str_eq
verdict c d n m agree =
    if ltb n m
    then Classification.newer
    else if ltb m n
    then stale
    else if str_eq c.evidence.provider_reference d.evidence.provider_reference && agree
    then exact_replay
    else conflict

-- Ordered checkpoints, with payloads that have canonical texts: a larger number is newer, a smaller
-- one stale, and one as large is a replay if the reference and the payload's text agree, and a
-- conflict if they do not.
pub classify-AreOrdered :
    (c d : Checkpoint) (n m : ℕ) {agree : Bool}
    → AreOrdered c d n m
    → same_text c.relevant_payload d.relevant_payload ≡ some agree
    → classify (some c) d ≡ ok (verdict c d n m agree)
unfolding by_sequence compare_numbers verdict same_semantic_checkpoint
classify-AreOrdered c d n m o h = let e = classify_by_numbers c d n m o in ground (arith, e, h)

-- A confirmation of an ordered checkpoint has the same payload and a number that is not smaller.
monotone_parts :
    (c d : Checkpoint) (n m : ℕ)
    → AreOrdered c d n m
    → is_monotone c d ≡ ok true
    → (same_text c.relevant_payload d.relevant_payload ≡ some true)
      × (n ≤ m)
      × ((n ≡ m) → c.evidence.provider_reference ≡ d.evidence.provider_reference)
unfolding is_monotone by_sequence compare_numbers same_semantic_checkpoint
monotone_parts c d n m o h =
    let e = classify_by_numbers c d n m o in
    let r = str_eq_iff c.evidence.provider_reference d.evidence.provider_reference in
    (ground (arith, e), ground (arith, e), λ s. ground (arith, e, r))

monotone_of_parts :
    (c d : Checkpoint) (n m : ℕ)
    → AreOrdered c d n m
    → same_text c.relevant_payload d.relevant_payload ≡ some true
    → n ≤ m
    → ((n ≡ m) → c.evidence.provider_reference ≡ d.evidence.provider_reference)
    → is_monotone c d ≡ ok true
unfolding is_monotone by_sequence compare_numbers same_semantic_checkpoint
monotone_of_parts c d n m o payloads le references = ground (
  arith,
  classify_by_numbers c d n m o,
  str_eq_iff c.evidence.provider_reference d.evidence.provider_reference,
)

-- Confirmations of ordered checkpoints compose.
pub is_monotone_trans :
    (b c d : Checkpoint) (k n m : ℕ)
    → AreOrdered b c k n
    → AreOrdered c d n m
    → is_monotone b c ≡ ok true
    → is_monotone c d ≡ ok true
    → is_monotone b d ≡ ok true
is_monotone_trans b c d k n m o p h i =
    let (payloads, le, references) = monotone_parts b c k n o h in
    let (payloads', le', references') = monotone_parts c d n m p i in
    let q : AreOrdered b d k m = record {
      old_value = o.old_value;
      new_value = p.new_value;
      same_provider = o.same_provider ∙ p.same_provider;
      old_sequence = o.old_sequence;
      new_sequence = p.new_sequence;
      old_canonical = o.old_canonical;
      new_canonical = p.new_canonical;
      old_number = o.old_number;
      new_number = p.new_number;
    } in
    monotone_of_parts b d k m q
      (same_text_trans b.relevant_payload c.relevant_payload d.relevant_payload payloads payloads')
      (omega arith) (λ e. references (omega arith) ∙ references' (omega arith))
