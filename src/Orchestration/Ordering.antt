-- ===== src/Orchestration/Ordering.antt =====
-- packages/orchestration/src/ordering.ts: where a provider event stands against the last one taken.
pub mod Decimal
pub mod Updates
use api_truth.Prelude.{
  ℕ, Bool, true, false, ◌&&◌, ◌||◌, not, Option, none, some, List, [], ◌∷◌, leb, ltb, ◌==◌,
  if◌then◌else◌, length, all,
}
use api_truth.Prelude.Text.{Str, lit, str_eq, str_lt}
use api_truth.Prelude.Sets.{has}
use api_truth.Json.{Json, Fields, str, obj, get, keys}
use api_truth.Orchestration.Canonical.{detached, same_text}
use api_truth.Orchestration.Errors.{
  Result, ok, err, ◌>>=◌, ◌>>◌, require, from_option, invalid_orchestration_input,
}

abbrev is_digit : ℕ → Bool
is_digit c = leb b'0' c && leb c b'9'

-- /^(0|[1-9][0-9]*)$/
unfoldable pub is_canonical_decimal : Str → Bool
is_canonical_decimal [] = false
is_canonical_decimal (c ∷ []) = is_digit c
is_canonical_decimal (c ∷ d ∷ s) = not (c == b'0') && all is_digit (c ∷ d ∷ s)

pub data SequenceOrder : Type 0 where
  older equal newer invalid : SequenceOrder

-- The comparison of two canonical decimals, shared in form with compareDecimal of the environment
-- package.
unfoldable pub compare_decimal : Str → Str → SequenceOrder
unfolding str_eq str_lt
compare_decimal current next =
    if ltb (length next) (length current)
    then older
    else if ltb (length current) (length next)
    then newer
    else if str_eq next current
    then equal
    else if str_lt next current
    then older
    else newer

unfoldable pub compare_canonical_sequence : Str → Str → SequenceOrder
unfolding is_canonical_decimal compare_decimal
compare_canonical_sequence current next =
    if not (is_canonical_decimal current) || not (is_canonical_decimal next)
    then invalid
    else compare_decimal current next

pub data OrderKind : Type 0 where
  sequence cursor effective_version : OrderKind

pub record Order : Type 0 where
  pub kind : OrderKind
  pub value : Str

pub record Evidence : Type 0 where
  pub provider : Str
  pub provider_reference : Str
  pub order : Option Order

-- `evidence_json` is the validated object itself, whose text is compared.
pub record Checkpoint : Type 0 where
  pub evidence : Evidence
  pub evidence_json : Json
  pub relevant_payload : Json

pub data Classification : Type 0 where
  first exact_replay newer stale conflict incomparable : Classification

abbrev nonempty : Option Json → Result Str
nonempty (some (str (a ∷ s))) = ok (a ∷ s)
nonempty _ = err invalid_orchestration_input

abbrev as_object : Json → Result Fields
as_object (obj fs) = ok fs
as_object _ = err invalid_orchestration_input

abbrev only_keys : List Str → Fields → Bool
only_keys allowed fs = all (λ k. has k allowed) (keys fs)

order_kind : Str → Option OrderKind
unfolding str_eq
order_kind t =
    if str_eq t (lit "sequence")
    then some sequence
    else if str_eq t (lit "cursor")
    then some cursor
    else if str_eq t (lit "effective_version")
    then some effective_version
    else none

parse_order : Option Json → Result (Option Order)
unfolding order_kind has get keys
parse_order none = ok none
parse_order (some v) = do
  fs ← as_object v
  require (only_keys (lit "kind" ∷ lit "value" ∷ []) fs) invalid_orchestration_input
  name ← nonempty (get (lit "kind") fs)
  kind ← from_option invalid_orchestration_input (order_kind name)
  value ← nonempty (get (lit "value") fs)
  ok (some (record { kind = kind; value = value }))

-- parseProviderEvidence
parse_evidence : Json → Result Evidence
unfolding parse_order has get keys
parse_evidence v = do
  fs ← as_object v
  require (only_keys (lit "provider" ∷ lit "provider_reference" ∷ lit "order" ∷ []) fs)
      invalid_orchestration_input
  provider ← nonempty (get (lit "provider") fs)
  reference ← nonempty (get (lit "provider_reference") fs)
  order ← parse_order (get (lit "order") fs)
  ok (record { provider = provider; provider_reference = reference; order = order })

-- parsedCheckpoint
unfoldable pub parse_checkpoint : Json → Result Checkpoint
unfolding parse_evidence detached get keys
parse_checkpoint input = do
  copy ← from_option invalid_orchestration_input (detached input)
  fs ← as_object copy
  require (length (keys fs) == 2) invalid_orchestration_input
  evidence_json ← from_option invalid_orchestration_input (get (lit "evidence") fs)
  payload ← from_option invalid_orchestration_input (get (lit "relevantPayload") fs)
  evidence ← parse_evidence evidence_json
  ok (record { evidence = evidence; evidence_json = evidence_json; relevant_payload = payload })

-- canonicalOrchestrationJson(a) === canonicalOrchestrationJson(b)
abbrev pub texts_agree : Json → Json → Result Bool
texts_agree a b = from_option invalid_orchestration_input (same_text a b)

unfoldable pub same_semantic_checkpoint : Checkpoint → Checkpoint → Result Bool
unfolding str_eq
same_semantic_checkpoint current next = do
  payloads ← texts_agree current.relevant_payload next.relevant_payload
  ok (str_eq current.evidence.provider_reference next.evidence.provider_reference && payloads)

unfoldable pub same_exact_checkpoint : Checkpoint → Checkpoint → Result Bool
same_exact_checkpoint current next = do
  evidences ← texts_agree current.evidence_json next.evidence_json
  payloads ← texts_agree current.relevant_payload next.relevant_payload
  ok (evidences && payloads)

-- order?.kind === "sequence", with its value
abbrev pub sequence_value : Checkpoint → Option Str
sequence_value c = elim c.evidence.order [
  | none ↦ none
  | some o ↦ elim o.kind [ sequence ↦ some o.value | _ ↦ none ]
]

-- The branches on checkpoints that both have a sequence.
by_sequence : Checkpoint → Checkpoint → SequenceOrder → Result Classification
by_sequence current next invalid = ok incomparable
by_sequence current next older = ok stale
by_sequence current next SequenceOrder.newer = ok Classification.newer
by_sequence current next equal = do
  same ← same_semantic_checkpoint current next
  ok (if same then exact_replay else conflict)

classify_against : Checkpoint → Checkpoint → Option Str → Option Str → Result Classification
unfolding by_sequence compare_canonical_sequence
classify_against current next (some old_value) (some new_value) =
    by_sequence current next (compare_canonical_sequence old_value new_value)
classify_against current next _ _ = do
  same ← same_exact_checkpoint current next
  ok (if same then exact_replay else incomparable)

classify_first : Option Str → Classification
unfolding is_canonical_decimal
classify_first (some value) = if is_canonical_decimal value then first else incomparable
classify_first none = incomparable

-- classifyProviderUpdate, on parsed checkpoints
unfoldable pub classify : Option Checkpoint → Checkpoint → Result Classification
unfolding classify_first classify_against str_eq
classify none next = ok (classify_first (sequence_value next))
classify (some current) next =
    if str_eq current.evidence.provider next.evidence.provider
    then classify_against current next (sequence_value current) (sequence_value next)
    else ok incomparable

unfoldable pub classify_provider_update : Option Json → Json → Result Classification
unfolding classify parse_checkpoint
classify_provider_update none next_input = do next ← parse_checkpoint next_input; classify none next
classify_provider_update (some current_input) next_input = do
  next ← parse_checkpoint next_input
  current ← parse_checkpoint current_input
  classify (some current) next

abbrev confirms : Classification → Bool
confirms exact_replay = true
confirms Classification.newer = true
confirms _ = false

-- isMonotoneProviderConfirmation, on parsed checkpoints
unfoldable pub is_monotone : Checkpoint → Checkpoint → Result Bool
unfolding classify
is_monotone origin current = do
  payloads ← texts_agree origin.relevant_payload current.relevant_payload
  verdict ← classify (some origin) current
  ok (payloads && confirms verdict)

unfoldable pub is_monotone_provider_confirmation : Json → Json → Result Bool
unfolding is_monotone parse_checkpoint
is_monotone_provider_confirmation origin_input current_input = do
  origin ← parse_checkpoint origin_input
  current ← parse_checkpoint current_input
  is_monotone origin current
