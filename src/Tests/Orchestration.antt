-- ===== src/Tests/Orchestration.antt =====
-- Runs of packages/orchestration/src at concrete inputs.
use api_truth.Prelude.{
  ℕ, ◌*◌, ◌-◌, ◌^◌, ◌≤◌, ◌≡◌, ◌≢◌, refl, true, false, false, some, List, [], ◌∷◌, ◌⊎◌, arith, min,
  Any,
}
use api_truth.Prelude.Text.{Str, lit, str_eq, str_eq-ne}
use api_truth.Json.{Json, obj, field, end, str, boolean}
use api_truth.Orchestration.Errors.{ok, job_lease_conflict}
use api_truth.Orchestration.Canonical.{code_points, serialize}
use api_truth.Orchestration.Canonical.Total.{is_some, plain, serialize-plain}
use api_truth.Orchestration.Canonical.Texts.{append_fields, serialize-field_swap}
use api_truth.Orchestration.State.{
  JobState, JobTransition, ReducedJob, OutboxState, OutboxTransition, job, is_terminal, reduce,
  reduce_job_state, retry_delay, compute_retry_delay_ms, reduce_outbox,
}
use api_truth.Orchestration.State.Jobs.{
  ◌⟶◌, IsCoherent, history, reduce-⟶, ⟶-reduce, reduce-eq-err, history_terminal, history-IsCoherent,
  succeeded_needs_lease,
}
use api_truth.Orchestration.State.Parsing.{job_json, transition_json, reduce_job_state_of_json}
use api_truth.Orchestration.State.Retry.{
  retry_input, retry_delay_backoff, compute_retry_delay_ms_total,
}
use api_truth.Orchestration.State.Outbox.{job_state, entry_state, reduce_outbox-reduce}

abbrev queued_job : ReducedJob
queued_job = job JobState.queued

abbrev leased_job : ReducedJob
leased_job = job JobState.leased

reduce-⟶_example :
    ((is_terminal JobState.queued ≡ true) × (leased_job ≡ queued_job))
    ⊎ ((is_terminal JobState.queued ≡ false) × (JobState.queued ⟶ JobState.leased))
unfolding reduce
reduce-⟶_example = reduce-⟶ queued_job JobTransition.lease refl

⟶-reduce_example :
    (t : JobTransition) × (k : ReducedJob) × (reduce leased_job t ≡ ok k)
    × (k.state ≡ JobState.retry_wait)
⟶-reduce_example = ⟶-reduce leased_job ◌⟶◌.postpone

queued_job-IsCoherent : IsCoherent queued_job
queued_job-IsCoherent = record { error_matches = refl; successor_matches = refl }

abbrev a_run : List JobTransition
a_run = JobTransition.lease ∷ JobTransition.retry ∷ JobTransition.lease ∷ JobTransition.succeed ∷ []

history-IsCoherent_example : IsCoherent (history queued_job a_run)
history-IsCoherent_example = history-IsCoherent queued_job a_run queued_job-IsCoherent

history_terminal_example : history (job JobState.cancelled) a_run ≡ job JobState.cancelled
history_terminal_example = history_terminal (job JobState.cancelled) a_run refl

succeeded_needs_lease_example : Any (λ t. t ≡ JobTransition.lease) a_run
unfolding history
succeeded_needs_lease_example = succeeded_needs_lease queued_job a_run refl refl

reduce-eq-err_example :
    (job_lease_conflict ≡ job_lease_conflict)
    × (is_terminal JobState.queued ≡ false)
    × (JobTransition.succeed ≢ JobTransition.cancel)
    × ((id : Str) → JobTransition.succeed ≢ JobTransition.supersede id)
unfolding reduce
reduce-eq-err_example = reduce-eq-err queued_job JobTransition.succeed refl

some-ne-nil : (a : ℕ) (s : Str) → some (a ∷ s) ≢ some []
some-ne-nil a s h = cc

abbrev replaced_job : ReducedJob
replaced_job = record (job JobState.superseded) { superseding_job_id = some (lit "job-2") }

abbrev starve : JobTransition
starve = JobTransition.dependency (some false) (some (lit "job-2"))

reduce_job_state_of_json_example :
    reduce_job_state (job_json replaced_job) (transition_json starve) ≡ reduce replaced_job starve
reduce_job_state_of_json_example =
    reduce_job_state_of_json replaced_job starve (some-ne-nil b'j' (lit "ob-2"))
      (some-ne-nil b'j' (lit "ob-2"))

retry_delay_backoff_example :
    (100 ≤ retry_delay 3 100 5000)
    × (retry_delay 3 100 5000 ≤ 5000)
    × (retry_delay 4 100 5000 ≡ min 5000 (2 * retry_delay 3 100 5000))
retry_delay_backoff_example =
    retry_delay_backoff 3 100 5000 (omega arith) (omega arith) (omega arith) (omega arith)

abbrev delay_input : Json
delay_input = retry_input 3 100 5000 (lit "3") (lit "100") (lit "5000")

compute_retry_delay_ms_total_example :
    compute_retry_delay_ms delay_input ≡ ok (min 5000 (100 * 2 ^ (3 - 1)))
compute_retry_delay_ms_total_example =
    compute_retry_delay_ms_total 3 100 5000 (lit "3") (lit "100") (lit "5000") (omega arith)
      (omega arith) (omega arith) (omega arith) (omega arith)

reduce_outbox-reduce_example :
    entry_state (reduce_outbox OutboxState.leased OutboxTransition.retry)
    ≡ job_state (reduce leased_job JobTransition.retry)
reduce_outbox-reduce_example = reduce_outbox-reduce OutboxState.leased OutboxTransition.retry

a-ne-b : code_points (lit "a") ≢ code_points (lit "b")
unfolding code_points str_eq
a-ne-b = str_eq-ne (code_points (lit "a")) (code_points (lit "b")) refl

serialize-field_swap_example :
    serialize (
      obj (
        append_fields
          (field (lit "c") (boolean false) end)
          (field (lit "a") (boolean true) (field (lit "b") (str (lit "x")) end))))
    ≡ serialize (
        obj (
          append_fields
            (field (lit "c") (boolean false) end)
            (field (lit "b") (str (lit "x")) (field (lit "a") (boolean true) end))))
serialize-field_swap_example =
    serialize-field_swap (field (lit "c") (boolean false) end) (lit "a") (lit "b") (boolean true)
      (str (lit "x")) end a-ne-b

serialize-plain_example :
    is_some (serialize (obj (field (lit "a") Json.exotic end)))
    ≡ plain (obj (field (lit "a") Json.exotic end))
serialize-plain_example = serialize-plain (obj (field (lit "a") Json.exotic end))
