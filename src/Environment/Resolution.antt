-- ===== src/Environment/Resolution.antt =====
-- packages/environment/src/resolution.ts: the state of an environment from one serving observation.
pub mod Pinning
pub mod Inventory
use api_truth.Prelude.{
  ℕ, Bool, true, false, ◌&&◌, ◌||◌, not, Option, none, some, List, [], ◌∷◌, ◌==◌, if◌then◌else◌,
  length, filter, any, map,
}
use api_truth.Prelude.Text.{Str, str_eq, str_lt}
use api_truth.Prelude.Sorting.{sort}

pub data Completeness : Type 0 where
  complete incomplete transitional : Completeness

-- `reason` of an unknown revision is not read.
pub data RevisionReference : Type 0 where
  known : Str → RevisionReference
  unknown : RevisionReference

pub record Item : Type 0 where
  pub artifact_id : Str
  pub revision : RevisionReference

pub data ServingState : Type 0 where
  known : List Item → ServingState
  unknown : ServingState

pub record Observation : Type 0 where
  pub completeness : Completeness
  pub serving_state : ServingState

pub data AttemptState : Type 0 where
  pending succeeded failed rollback_requested rolled_back : AttemptState

pub record Attempt : Type 0 where
  pub deployment_id : Str
  pub state : AttemptState

pub record Binding : Type 0 where
  pub artifact_id : Str
  pub revision : Str

pub record Snapshot : Type 0 where
  pub revision : Str
  pub snapshot_id : Str

pub record Input : Type 0 where
  pub observation : Option Observation
  pub latest_attempt : Option Attempt
  pub artifact_bindings : List Binding
  pub revision_snapshots : List Snapshot

pub data Deployment : Type 0 where
  unknown confirmed_not_deployed deployed transitional : Deployment

pub data Contract : Type 0 where
  unavailable pending_binding pending_analysis resolved ambiguous : Contract

pub record Active : Type 0 where
  pub artifact_id : Str
  pub revision : Option Str
  pub snapshot_id : Option Str

pub record Resolution : Type 0 where
  pub deployment : Deployment
  pub contract : Contract
  pub active : List Active
  pub latest_attempt : Option Attempt
  pub snapshot_id : Option Str

abbrev pub is_complete : Completeness → Bool
is_complete Completeness.complete = true
is_complete _ = false

-- stable(left.artifactId, right.artifactId) < 0
abbrev pub active_before : Active → Active → Bool
active_before a b = str_lt a.artifact_id b.artifact_id

abbrev known_revision : RevisionReference → Option Str
known_revision (RevisionReference.known r) = some r
known_revision RevisionReference.unknown = none

-- What one item adds: its entry, and the two flags `missingBinding` and `missingAnalysis`.
record Mapped : Type 0 where
  entry : Active
  missing_binding : Bool
  missing_analysis : Bool

abbrev sole_binding : List Binding → Str → Bool
sole_binding [] r = false
sole_binding (b ∷ []) r = str_eq b.revision r
sole_binding (b ∷ c ∷ bs) r = false

abbrev sole_snapshot : List Snapshot → Option Str
sole_snapshot [] = none
sole_snapshot (s ∷ []) = some s.snapshot_id
sole_snapshot (s ∷ t ∷ ss) = none

analysed : Str → Str → Option Str → Mapped
analysed artifact r none = record {
  entry = record { artifact_id = artifact; revision = some r; snapshot_id = none };
  missing_binding = false;
  missing_analysis = true;
}
analysed artifact r (some id) = record {
  entry = record { artifact_id = artifact; revision = some r; snapshot_id = some id };
  missing_binding = false;
  missing_analysis = false;
}

unbound : Str → Option Str → Mapped
unbound artifact r = record {
  entry = record { artifact_id = artifact; revision = r; snapshot_id = none };
  missing_binding = true;
  missing_analysis = false;
}

module _ (input : Input) where
  unfoldable pub bindings_of : Str → List Binding
  bindings_of artifact = filter (λ b. str_eq b.artifact_id artifact) input.artifact_bindings

  unfoldable pub snapshots_of : Str → List Snapshot
  snapshots_of r = filter (λ s. str_eq s.revision r) input.revision_snapshots

  map_known : Str → Str → Mapped
  unfolding analysed unbound bindings_of snapshots_of
  map_known artifact r =
      if sole_binding (bindings_of artifact) r
      then analysed artifact r (sole_snapshot (snapshots_of r))
      else unbound artifact (some r)

  map_item : Item → Mapped
  unfolding map_known
  map_item item = elim (known_revision item.revision) [
    | none ↦ unbound item.artifact_id none
    | some r ↦ map_known item.artifact_id r
  ]

abbrev first_snapshot : List Active → Option Str
first_snapshot [] = none
first_snapshot (a ∷ as') = a.snapshot_id

abbrev contract_of : List Mapped → Contract
contract_of ms =
    if any (λ m. m.missing_binding) ms
    then pending_binding
    else if any (λ m. m.missing_analysis) ms
    then pending_analysis
    else resolved

abbrev resolved_snapshot : Contract → List Active → Option Str
resolved_snapshot resolved active = first_snapshot active
resolved_snapshot _ active = none

-- The branches for an inventory that is not empty.
serving : Option Attempt → Completeness → Contract → List Active → Resolution
serving attempt completeness contract active =
    if not (is_complete completeness) || not (length active == 1)
    then record {
      deployment = Deployment.transitional;
      contract = ambiguous;
      active = active;
      latest_attempt = attempt;
      snapshot_id = none;
    }
    else record {
      deployment = deployed;
      contract = contract;
      active = active;
      latest_attempt = attempt;
      snapshot_id = resolved_snapshot contract active;
    }

without_contract : Option Attempt → Deployment → Resolution
without_contract attempt d = record {
  deployment = d;
  contract = unavailable;
  active = [];
  latest_attempt = attempt;
  snapshot_id = none;
}

abbrev empty_deployment : Completeness → Deployment
empty_deployment c = if is_complete c then confirmed_not_deployed else Deployment.unknown

resolve_serving : Input → Completeness → ServingState → Resolution
unfolding serving without_contract map_item sort
resolve_serving input c ServingState.unknown =
    without_contract input.latest_attempt Deployment.unknown
resolve_serving input c (ServingState.known []) =
    without_contract input.latest_attempt (empty_deployment c)
resolve_serving input c (ServingState.known (i ∷ is)) =
    serving input.latest_attempt c (contract_of (map (map_item input) (i ∷ is)))
      (sort active_before (map (λ m. m.entry) (map (map_item input) (i ∷ is))))

resolve_observed : Input → Option Observation → Resolution
unfolding resolve_serving without_contract
resolve_observed input none = without_contract input.latest_attempt Deployment.unknown
resolve_observed input (some o) = resolve_serving input o.completeness o.serving_state

unfoldable pub resolve_environment : Input → Resolution
unfolding resolve_observed
resolve_environment input = resolve_observed input input.observation
