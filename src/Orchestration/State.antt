-- ===== src/Orchestration/State.antt =====
-- packages/orchestration/src/state.ts: the reducers of job and outbox states, and the retry delay.
-- A reducer takes untyped input, so each parser of the source is here too.
pub mod Jobs
pub mod Parsing
pub mod Retry
pub mod Outbox
use api_truth.Prelude.{
  ℕ, ◌+◌, ◌-◌, ◌*◌, ◌^◌, ◌≡◌, refl, Bool, true, false, ◌&&◌, ◌||◌, not, Option, none, some, List,
  [], ◌∷◌, min, ltb, leb, ◌==◌, if◌then◌else◌, all, any, length,
}
use api_truth.Prelude.Text.{Str, lit, str_eq}
use api_truth.Prelude.Sets.{has}
use api_truth.Json.{Number, Json, Fields, null, boolean, number, str, obj, end, field, get, keys}
use api_truth.Orchestration.Canonical.{detached}
use api_truth.Orchestration.Errors.{
  ErrorCode, Result, ok, err, ◌>>=◌, ◌>>◌, require, from_option, invalid_orchestration_input,
  job_lease_conflict, outbox_lease_conflict, job_dependency_failed, job_execution_failed,
}

pub data JobState : Type 0 where
  queued leased retry_wait succeeded failed cancelled superseded : JobState

-- The two error codes that a job can carry.
pub data JobError : Type 0 where
  dependency_failed execution_failed : JobError

pub record ReducedJob : Type 0 where
  pub state : JobState
  pub error_code : Option JobError
  pub superseding_job_id : Option Str

pub data JobTransition : Type 0 where
  lease succeed retry fail cancel : JobTransition
  supersede : Str → JobTransition
  dependency : Option Bool → Option Str → JobTransition

abbrev pub job : JobState → ReducedJob
job s = record { state = s; error_code = none; superseding_job_id = none }

abbrev pub is_terminal : JobState → Bool
is_terminal succeeded = true
is_terminal failed = true
is_terminal cancelled = true
is_terminal superseded = true
is_terminal _ = false

-- detachedRecord
unfoldable pub detached_record : Json → Result Fields
unfolding detached
detached_record input = elim (detached input) [
  | some (obj fs) ↦ ok fs
  | _ ↦ err invalid_orchestration_input
]

unfoldable pub state_of_text : Str → Option JobState
unfolding str_eq
state_of_text t =
    if str_eq t (lit "queued")
    then some queued
    else if str_eq t (lit "leased")
    then some leased
    else if str_eq t (lit "retry_wait")
    then some retry_wait
    else if str_eq t (lit "succeeded")
    then some succeeded
    else if str_eq t (lit "failed")
    then some failed
    else if str_eq t (lit "cancelled")
    then some cancelled
    else if str_eq t (lit "superseded")
    then some superseded
    else none

-- `states.includes(value.state)`
parse_state : Option Json → Result JobState
unfolding state_of_text
parse_state (some (str t)) = from_option invalid_orchestration_input (state_of_text t)
parse_state _ = err invalid_orchestration_input

parse_error_code : Option Json → Result (Option JobError)
unfolding str_eq
parse_error_code none = ok none
parse_error_code (some (str t)) =
    if str_eq t (lit "JOB_DEPENDENCY_FAILED")
    then ok (some dependency_failed)
    else if str_eq t (lit "JOB_EXECUTION_FAILED")
    then ok (some execution_failed)
    else err invalid_orchestration_input
parse_error_code (some _) = err invalid_orchestration_input

-- undefined, or a nonempty string
parse_optional_id : Option Json → Result (Option Str)
parse_optional_id none = ok none
parse_optional_id (some (str [])) = err invalid_orchestration_input
parse_optional_id (some (str (a ∷ s))) = ok (some (a ∷ s))
parse_optional_id (some _) = err invalid_orchestration_input

parse_id : Option Json → Result Str
parse_id (some (str (a ∷ s))) = ok (a ∷ s)
parse_id _ = err invalid_orchestration_input

parse_optional_boolean : Option Json → Result (Option Bool)
parse_optional_boolean none = ok none
parse_optional_boolean (some (boolean b)) = ok (some b)
parse_optional_boolean (some _) = err invalid_orchestration_input

abbrev only_keys : List Str → Fields → Bool
only_keys allowed fs = all (λ k. has k allowed) (keys fs)

unfoldable pub parse_reduced_job : Json → Result ReducedJob
unfolding detached_record parse_state parse_error_code parse_optional_id has get keys
parse_reduced_job input = do
  value ← detached_record input
  require (only_keys (lit "state" ∷ lit "errorCode" ∷ lit "supersedingJobId" ∷ []) value)
      invalid_orchestration_input
  state ← parse_state (get (lit "state") value)
  error_code ← parse_error_code (get (lit "errorCode") value)
  superseding ← parse_optional_id (get (lit "supersedingJobId") value)
  ok (record { state = state; error_code = error_code; superseding_job_id = superseding })

simple_transition : Str → Option JobTransition
unfolding str_eq
simple_transition kind =
    if str_eq kind (lit "lease")
    then some lease
    else if str_eq kind (lit "succeed")
    then some succeed
    else if str_eq kind (lit "retry")
    then some retry
    else if str_eq kind (lit "fail")
    then some fail
    else if str_eq kind (lit "cancel")
    then some cancel
    else none

dependency_transition : Fields → Result JobTransition
unfolding parse_optional_boolean parse_optional_id has get keys
dependency_transition value = do
  require (only_keys (lit "kind" ∷ lit "cancellationRequested" ∷ lit "supersedingJobId" ∷ []) value)
      invalid_orchestration_input
  requested ← parse_optional_boolean (get (lit "cancellationRequested") value)
  superseding ← parse_optional_id (get (lit "supersedingJobId") value)
  ok (dependency requested superseding)

transition_of_kind : Str → Fields → Result JobTransition
unfolding simple_transition dependency_transition parse_id str_eq get keys
transition_of_kind kind value = elim (simple_transition kind) [
  | some t ↦ if length (keys value) == 1 then ok t else err invalid_orchestration_input
  | none ↦
      if str_eq kind (lit "supersede") && length (keys value) == 2
      then (do
        superseding ← parse_id (get (lit "supersedingJobId") value)
        ok (supersede superseding))
      else if str_eq kind (lit "dependency_failed")
      then dependency_transition value
      else err invalid_orchestration_input
]

unfoldable pub parse_transition : Json → Result JobTransition
unfolding detached_record transition_of_kind get
parse_transition input = do
  value ← detached_record input
  kind ← elim (get (lit "kind") value) [ some (str k) ↦ ok k | _ ↦ err invalid_orchestration_input ]
  transition_of_kind kind value

abbrev waiting : JobState → Bool
waiting queued = true
waiting retry_wait = true
waiting _ = false

abbrev is_leased : JobState → Bool
is_leased leased = true
is_leased _ = false

on_dependency : JobState → Option Bool → Option Str → Result ReducedJob
on_dependency s requested (some id) = ok (record (job superseded) { superseding_job_id = some id })
on_dependency s (some true) none = ok (job cancelled)
on_dependency s _ none =
    if waiting s
    then ok (record (job failed) { error_code = some dependency_failed })
    else err job_lease_conflict

-- The ladder of `reduceJobState` below its terminal test.
on_transition : JobState → JobTransition → Result ReducedJob
unfolding on_dependency
on_transition s (dependency requested superseding) = on_dependency s requested superseding
on_transition s cancel = ok (job cancelled)
on_transition s (supersede id) = ok (record (job superseded) { superseding_job_id = some id })
on_transition s lease = if waiting s then ok (job leased) else err job_lease_conflict
on_transition s succeed = if is_leased s then ok (job succeeded) else err job_lease_conflict
on_transition s retry = if is_leased s then ok (job retry_wait) else err job_lease_conflict
on_transition s fail =
    if is_leased s
    then ok (record (job failed) { error_code = some execution_failed })
    else err job_lease_conflict

unfoldable pub reduce : ReducedJob → JobTransition → Result ReducedJob
unfolding on_transition
reduce current transition =
    if is_terminal current.state then ok current else on_transition current.state transition

unfoldable pub reduce_job_state : Json → Json → Result ReducedJob
unfolding parse_reduced_job parse_transition reduce
reduce_job_state current_input transition_input = do
  current ← parse_reduced_job current_input
  transition ← parse_transition transition_input
  reduce current transition

-- Number.MAX_SAFE_INTEGER
abbrev pub max_safe : ℕ
max_safe = 9007199254740991

-- typeof v === "number" && Number.isSafeInteger(v), for the non-negative ones
safe_integer : Option Json → Result ℕ
safe_integer (some (number n)) = elim n.natural [
  | some v ↦ if leb v max_safe then ok v else err invalid_orchestration_input
  | none ↦ err invalid_orchestration_input
]
safe_integer _ = err invalid_orchestration_input

-- The multiplication is by a power of two below 2 ^ 53, so the double that it yields is exact.
unfoldable pub retry_delay : ℕ → ℕ → ℕ → ℕ
retry_delay attempt base_delay_ms max_delay_ms =
    if ltb 53 attempt then max_delay_ms else min max_delay_ms (base_delay_ms * 2 ^ (attempt - 1))

-- The tests on three safe integers, and the delay.
checked_delay : ℕ → ℕ → ℕ → Result ℕ
unfolding retry_delay
checked_delay attempt base_delay_ms max_delay_ms = do
  require (leb 1 attempt && leb 1 base_delay_ms && leb base_delay_ms max_delay_ms)
      invalid_orchestration_input
  ok (retry_delay attempt base_delay_ms max_delay_ms)

delay_of_fields : Fields → Result ℕ
unfolding safe_integer checked_delay get
delay_of_fields value = do
  attempt ← safe_integer (get (lit "attempt") value)
  base_delay_ms ← safe_integer (get (lit "baseDelayMs") value)
  max_delay_ms ← safe_integer (get (lit "maxDelayMs") value)
  checked_delay attempt base_delay_ms max_delay_ms

unfoldable pub compute_retry_delay_ms : Json → Result ℕ
unfolding detached_record delay_of_fields has keys
compute_retry_delay_ms input = do
  value ← detached_record input
  require (only_keys (lit "attempt" ∷ lit "baseDelayMs" ∷ lit "maxDelayMs" ∷ []) value)
      invalid_orchestration_input
  delay_of_fields value

pub data OutboxState : Type 0 where
  pending leased retry_wait delivered exhausted : OutboxState

pub data OutboxTransition : Type 0 where
  lease deliver retry exhaust : OutboxTransition

-- The reducer below its membership tests.
unfoldable pub reduce_outbox : OutboxState → OutboxTransition → Result OutboxState
reduce_outbox delivered t = ok delivered
reduce_outbox exhausted t = ok exhausted
reduce_outbox pending lease = ok leased
reduce_outbox retry_wait lease = ok leased
reduce_outbox leased deliver = ok delivered
reduce_outbox leased retry = ok retry_wait
reduce_outbox leased exhaust = ok exhausted
reduce_outbox _ _ = err outbox_lease_conflict

outbox_state_of_text : Str → Option OutboxState
unfolding str_eq
outbox_state_of_text t =
    if str_eq t (lit "pending")
    then some pending
    else if str_eq t (lit "leased")
    then some leased
    else if str_eq t (lit "retry_wait")
    then some retry_wait
    else if str_eq t (lit "delivered")
    then some delivered
    else if str_eq t (lit "exhausted")
    then some exhausted
    else none

outbox_transition_of_text : Str → Option OutboxTransition
unfolding str_eq
outbox_transition_of_text t =
    if str_eq t (lit "lease")
    then some lease
    else if str_eq t (lit "deliver")
    then some deliver
    else if str_eq t (lit "retry")
    then some retry
    else if str_eq t (lit "exhaust")
    then some exhaust
    else none

-- `states.includes(input)`: only a string can be a member
parse_text {ℓ} : {A : Type ℓ} → (Str → Option A) → Json → Result A
parse_text of_text (str t) = from_option invalid_orchestration_input (of_text t)
parse_text of_text _ = err invalid_orchestration_input

unfoldable pub reduce_outbox_state : Json → Json → Result OutboxState
unfolding outbox_state_of_text outbox_transition_of_text parse_text reduce_outbox
reduce_outbox_state state_input transition_input = do
  state ← parse_text outbox_state_of_text state_input
  transition ← parse_text outbox_transition_of_text transition_input
  reduce_outbox state transition
