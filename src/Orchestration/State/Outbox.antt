-- ===== src/Orchestration/State/Outbox.antt =====
-- The lifecycle of an outbox entry, against that of a job.
use api_truth.Prelude.{◌≡◌, refl, Option, none, some, arith}
use api_truth.Prelude.Text.{Str, lit}
use api_truth.Json.{str}
use api_truth.Orchestration.Errors.{Result, ok, err}
use api_truth.Orchestration.State.{
  JobState, JobTransition, ReducedJob, OutboxState, OutboxTransition, job, reduce, reduce_outbox,
  reduce_outbox_state,
}

abbrev pub as_job : OutboxState → ReducedJob
as_job OutboxState.pending = job JobState.queued
as_job OutboxState.leased = job JobState.leased
as_job OutboxState.retry_wait = job JobState.retry_wait
as_job OutboxState.delivered = job JobState.succeeded
as_job OutboxState.exhausted = job JobState.failed

abbrev pub as_transition : OutboxTransition → JobTransition
as_transition OutboxTransition.lease = JobTransition.lease
as_transition OutboxTransition.deliver = JobTransition.succeed
as_transition OutboxTransition.retry = JobTransition.retry
as_transition OutboxTransition.exhaust = JobTransition.fail

abbrev pub job_state : Result ReducedJob → Option JobState
job_state (ok j) = some j.state
job_state (err c) = none

abbrev pub entry_state : Result OutboxState → Option JobState
entry_state (ok s) = some (as_job s).state
entry_state (err c) = none

-- An outbox entry accepts and refuses what the job with its state does, and moves as it does.
pub reduce_outbox-reduce :
    (s : OutboxState) (t : OutboxTransition)
    → entry_state (reduce_outbox s t) ≡ job_state (reduce (as_job s) (as_transition t))
unfolding reduce_outbox reduce
reduce_outbox-reduce s t = ground arith

abbrev pub state_text : OutboxState → Str
state_text OutboxState.pending = lit "pending"
state_text OutboxState.leased = lit "leased"
state_text OutboxState.retry_wait = lit "retry_wait"
state_text OutboxState.delivered = lit "delivered"
state_text OutboxState.exhausted = lit "exhausted"

abbrev pub transition_text : OutboxTransition → Str
transition_text OutboxTransition.lease = lit "lease"
transition_text OutboxTransition.deliver = lit "deliver"
transition_text OutboxTransition.retry = lit "retry"
transition_text OutboxTransition.exhaust = lit "exhaust"

-- On the names of a state and a transition the parsed reducer is the reducer.
pub reduce_outbox_state_of_names :
    (s : OutboxState) (t : OutboxTransition)
    → reduce_outbox_state (str (state_text s)) (str (transition_text t)) ≡ reduce_outbox s t
unfolding reduce_outbox_state
reduce_outbox_state_of_names OutboxState.pending OutboxTransition.lease = refl
reduce_outbox_state_of_names OutboxState.pending OutboxTransition.deliver = refl
reduce_outbox_state_of_names OutboxState.pending OutboxTransition.retry = refl
reduce_outbox_state_of_names OutboxState.pending OutboxTransition.exhaust = refl
reduce_outbox_state_of_names _ OutboxTransition.lease = refl
reduce_outbox_state_of_names _ OutboxTransition.deliver = refl
reduce_outbox_state_of_names _ OutboxTransition.retry = refl
reduce_outbox_state_of_names _ OutboxTransition.exhaust = refl
