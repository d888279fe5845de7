-- ===== src/Orchestration/State/Jobs.antt =====
-- The lifecycle of a job: what `reduceJobState` allows, below its parsers.
use api_truth.Prelude.{
  ◌≡◌, ◌≢◌, refl, Bool, true, false, none, some, List, [], ◌∷◌, ◌⊎◌, inl, inr, arith, Any,
}
use api_truth.Prelude.Text.{Str, lit}
use api_truth.Orchestration.Errors.{ErrorCode, ok, err, job_lease_conflict}
use api_truth.Orchestration.State.{
  JobState, queued, leased, retry_wait, succeeded, failed, cancelled, superseded, JobTransition,
  lease, succeed, retry, fail, cancel, supersede, dependency, ReducedJob, job, is_terminal, reduce,
  dependency_failed, execution_failed,
}

-- The diagram: the moves from a state that is not terminal.
pub data ◌⟶◌ : JobState → JobState → Type 0 where
  take_queued : queued ⟶ leased
  take_waiting : retry_wait ⟶ leased
  complete : leased ⟶ succeeded
  postpone : leased ⟶ retry_wait
  break : leased ⟶ failed
  starve_queued : queued ⟶ failed
  starve_waiting : retry_wait ⟶ failed
  drop : {s : JobState} → is_terminal s ≡ false → s ⟶ cancelled
  replace : {s : JobState} → is_terminal s ≡ false → s ⟶ superseded

infix 3 ◌⟶◌
ruleset edges = (
  take_queued, take_waiting, complete, postpone, break, starve_queued, starve_waiting, drop,
  replace,
)

-- An accepted transition leaves a terminal job as it is, and moves any other along the diagram.
pub reduce-⟶ :
    (j : ReducedJob) (t : JobTransition) {k : ReducedJob}
    → reduce j t ≡ ok k
    → ((is_terminal j.state ≡ true) × (k ≡ j))
      ⊎ ((is_terminal j.state ≡ false) × (j.state ⟶ k.state))
unfolding reduce
reduce-⟶ j t h = grind (arith, edges)

-- A transition that makes the move.
cause : {s u : JobState} → s ⟶ u → JobTransition
cause take_queued = lease
cause take_waiting = lease
cause complete = succeed
cause postpone = retry
cause break = fail
cause starve_queued = dependency none none
cause starve_waiting = dependency (some false) none
cause (drop h) = cancel
cause (replace h) = supersede (lit "job-2")

Made : ReducedJob → JobTransition → JobState → Type 0
Made j t u = (k : ReducedJob) × (reduce j t ≡ ok k) × (k.state ≡ u)

cause-Made : {s u : JobState} (e : s ⟶ u) (j : ReducedJob) → j.state ≡ s → Made j (cause e) u
unfolding reduce cause Made
cause-Made take_queued j h = (job leased, ground arith, refl)
cause-Made take_waiting j h = (job leased, ground arith, refl)
cause-Made complete j h = (job succeeded, ground arith, refl)
cause-Made postpone j h = (job retry_wait, ground arith, refl)
cause-Made break j h =
    (record (job failed) { error_code = some execution_failed }, ground arith, refl)
cause-Made starve_queued j h =
    (record (job failed) { error_code = some dependency_failed }, ground arith, refl)
cause-Made starve_waiting j h =
    (record (job failed) { error_code = some dependency_failed }, ground arith, refl)
cause-Made (drop n) j h = (job cancelled, ground arith, refl)
cause-Made (replace n) j h =
    (record (job superseded) { superseding_job_id = some (lit "job-2") }, ground arith, refl)

-- Every move of the diagram is made by some transition.
pub ⟶-reduce :
    (j : ReducedJob) {u : JobState}
    → j.state ⟶ u
    → (t : JobTransition) × (k : ReducedJob) × (reduce j t ≡ ok k) × (k.state ≡ u)
unfolding Made
⟶-reduce j e = let (k, accepted, there) = cause-Made e j refl in (cause e, k, accepted, there)

abbrev pub carries_error : ReducedJob → Bool
carries_error j = elim j.error_code [ none ↦ false | some _ ↦ true ]

abbrev pub carries_successor : ReducedJob → Bool
carries_successor j = elim j.superseding_job_id [ none ↦ false | some _ ↦ true ]

abbrev pub is_failed : JobState → Bool
is_failed failed = true
is_failed _ = false

abbrev pub is_superseded : JobState → Bool
is_superseded superseded = true
is_superseded _ = false

-- An error code stands exactly beside `failed`, a superseding job exactly beside `superseded`.
pub record IsCoherent (j : ReducedJob) : Type 0 where
  pub error_matches : carries_error j ≡ is_failed j.state
  pub successor_matches : carries_successor j ≡ is_superseded j.state

-- An accepted transition keeps the optional fields in step with the state.
pub reduce-IsCoherent :
    (j : ReducedJob) (t : JobTransition) {k : ReducedJob}
    → IsCoherent j
    → reduce j t ≡ ok k
    → IsCoherent k
unfolding reduce
reduce-IsCoherent j t c h = ground arith

-- A refused transition is a lease conflict at a job that is not terminal, and not a cancellation or
-- a supersession.
pub reduce-eq-err :
    (j : ReducedJob) (t : JobTransition) {c : ErrorCode}
    → reduce j t ≡ err c
    → (c ≡ job_lease_conflict)
      × (is_terminal j.state ≡ false)
      × (t ≢ cancel)
      × ((id : Str) → t ≢ supersede id)
unfolding reduce
reduce-eq-err j t h = (ground arith, ground arith, λ e. ground arith, λ id e. ground arith)

-- A caller that keeps the job where a transition is refused.
unfoldable pub settle : ReducedJob → JobTransition → ReducedJob
unfolding reduce
settle j t = elim (reduce j t) [ ok k ↦ k | err c ↦ j ]

unfoldable pub history : ReducedJob → List JobTransition → ReducedJob
unfolding settle
history j [] = j
history j (t ∷ ts) = history (settle j t) ts

settle-IsCoherent : (j : ReducedJob) (t : JobTransition) → IsCoherent j → IsCoherent (settle j t)
unfolding settle reduce
settle-IsCoherent j t c = ground arith

settle_terminal : (j : ReducedJob) (t : JobTransition) → is_terminal j.state ≡ true → settle j t ≡ j
unfolding settle reduce
settle_terminal j t h = ground arith

-- Whatever follows, a terminal job stays exactly as it is.
pub history_terminal :
    (j : ReducedJob) (ts : List JobTransition) → is_terminal j.state ≡ true → history j ts ≡ j
unfolding history
history_terminal j [] h = refl
history_terminal j (t ∷ ts) h = rw (settle_terminal j t h) (history_terminal j ts h)

-- From a coherent job, any transitions, refused ones included, lead to a coherent job.
pub history-IsCoherent :
    (j : ReducedJob) (ts : List JobTransition) → IsCoherent j → IsCoherent (history j ts)
unfolding history
history-IsCoherent j [] c = c
history-IsCoherent j (t ∷ ts) c = history-IsCoherent (settle j t) ts (settle-IsCoherent j t c)

-- States in which no worker has the job and it has not been carried out.
abbrev unserved : JobState → Bool
unserved leased = false
unserved succeeded = false
unserved _ = true

settle-unserved :
    (j : ReducedJob) (t : JobTransition)
    → unserved j.state ≡ true
    → (t ≡ lease) ⊎ (unserved (settle j t).state ≡ true)
unfolding settle reduce
settle-unserved j t h = ground arith

-- A job that no worker has leased is not reported as done without a lease among the transitions.
pub succeeded_needs_lease :
    (j : ReducedJob) (ts : List JobTransition)
    → unserved j.state ≡ true
    → (history j ts).state ≡ succeeded
    → Any (λ t. t ≡ lease) ts
unfolding history
succeeded_needs_lease j [] u h = cc
succeeded_needs_lease j (t ∷ ts) u h = elim (settle-unserved j t u) [
  | inl e ↦ inl e
  | inr v ↦ inr (succeeded_needs_lease (settle j t) ts v h)
]
