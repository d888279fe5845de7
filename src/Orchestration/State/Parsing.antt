-- ===== src/Orchestration/State/Parsing.antt =====
-- The parsers of `state.ts` against the JSON that a reduced job and a transition have.
use api_truth.Prelude.{◌≡◌, ◌≢◌, refl, Bool, Option, none, some, [], ◌∷◌, arith, String}
use api_truth.Prelude.Text.{Str, lit}
use api_truth.Json.{Json, Fields, str, boolean, obj, field, end}
use api_truth.Orchestration.Errors.{ok}
use api_truth.Orchestration.State.{
  JobState, queued, leased, retry_wait, succeeded, failed, cancelled, superseded, JobTransition,
  JobError, dependency_failed, execution_failed, ReducedJob, parse_reduced_job, parse_transition,
  reduce, reduce_job_state,
}

abbrev pub state_name : JobState → Str
state_name queued = lit "queued"
state_name leased = lit "leased"
state_name retry_wait = lit "retry_wait"
state_name succeeded = lit "succeeded"
state_name failed = lit "failed"
state_name cancelled = lit "cancelled"
state_name superseded = lit "superseded"

abbrev pub error_name : JobError → Str
error_name dependency_failed = lit "JOB_DEPENDENCY_FAILED"
error_name execution_failed = lit "JOB_EXECUTION_FAILED"

-- An absent member is left out.
abbrev pub id_fields : Option Str → Fields
id_fields none = end
id_fields (some id) = field (lit "supersedingJobId") (str id) end

abbrev pub error_fields : Option JobError → Fields → Fields
error_fields none rest = rest
error_fields (some e) rest = field (lit "errorCode") (str (error_name e)) rest

abbrev pub job_json : ReducedJob → Json
job_json j = obj (
    field (lit "state") (str (state_name j.state))
      (error_fields j.error_code (id_fields j.superseding_job_id)))

abbrev kind : String → Json
kind s = str (lit s)

abbrev requested_fields : Option Bool → Fields → Fields
requested_fields none rest = rest
requested_fields (some b) rest = field (lit "cancellationRequested") (boolean b) rest

abbrev kind_field : String → Fields → Json
kind_field s rest = obj (field (lit "kind") (kind s) rest)

abbrev pub transition_json : JobTransition → Json
transition_json JobTransition.lease = kind_field "lease" end
transition_json JobTransition.succeed = kind_field "succeed" end
transition_json JobTransition.retry = kind_field "retry" end
transition_json JobTransition.fail = kind_field "fail" end
transition_json JobTransition.cancel = kind_field "cancel" end
transition_json (JobTransition.supersede id) = kind_field "supersede" (id_fields (some id))
transition_json (JobTransition.dependency requested id) =
    kind_field "dependency_failed" (requested_fields requested (id_fields id))

abbrev pub HasId : Option Str → Type 0
HasId o = o ≢ some []

abbrev pub transition_id : JobTransition → Option Str
transition_id (JobTransition.supersede id) = some id
transition_id (JobTransition.dependency requested id) = id
transition_id _ = none

-- A reduced job without an empty superseding id is parsed from its JSON.
pub parse_reduced_job-job_json :
    (j : ReducedJob) → HasId j.superseding_job_id → parse_reduced_job (job_json j) ≡ ok j
unfolding parse_reduced_job
parse_reduced_job-job_json j h = ground arith

-- A transition without an empty superseding id is parsed from its JSON.
pub parse_transition-transition_json :
    (t : JobTransition) → HasId (transition_id t) → parse_transition (transition_json t) ≡ ok t
unfolding parse_transition
parse_transition-transition_json JobTransition.lease h = refl
parse_transition-transition_json JobTransition.succeed h = refl
parse_transition-transition_json JobTransition.retry h = refl
parse_transition-transition_json JobTransition.fail h = refl
parse_transition-transition_json JobTransition.cancel h = refl
parse_transition-transition_json (JobTransition.supersede []) h = absurd (h refl)
parse_transition-transition_json (JobTransition.supersede (a ∷ s)) h = refl
parse_transition-transition_json (JobTransition.dependency none none) h = refl
parse_transition-transition_json (JobTransition.dependency (some b) none) h = refl
parse_transition-transition_json (JobTransition.dependency r (some [])) h = absurd (h refl)
parse_transition-transition_json (JobTransition.dependency none (some (a ∷ s))) h = refl
parse_transition-transition_json (JobTransition.dependency (some b) (some (a ∷ s))) h = refl

-- On the JSON of a job and of a transition, without empty superseding ids, the reducer of untyped
-- input is the typed one.
pub reduce_job_state_of_json :
    (j : ReducedJob) (t : JobTransition)
    → HasId j.superseding_job_id
    → HasId (transition_id t)
    → reduce_job_state (job_json j) (transition_json t) ≡ reduce j t
unfolding reduce_job_state
reduce_job_state_of_json j t hj ht =
    rw (parse_reduced_job-job_json j hj, parse_transition-transition_json t ht)
