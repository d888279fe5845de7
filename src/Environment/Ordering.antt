-- ===== src/Environment/Ordering.antt =====
-- packages/environment/src/ordering.ts: whether a serving observation is applied, on observations that
-- parseObservation has accepted.
pub mod Observations
use api_truth.Prelude.{
  Bool, true, false, ◌&&◌, ◌||◌, not, Option, none, some, List, [], ◌∷◌, ◌++◌, if◌then◌else◌,
}
use api_truth.Prelude.Text.{Str, lit, str_eq, str_lt}
use api_truth.Prelude.Sorting.{sort}
use api_truth.Json.{Json, Items, Fields, obj, arr, str, field, end, nil, cons, items}
use api_truth.Orchestration.Canonical.{◌>>=◌, serialize}
use api_truth.Orchestration.Ordering.{
  SequenceOrder, older, equal, newer, invalid, is_canonical_decimal, compare_decimal,
}
use api_truth.Environment.Resolution.{Completeness}

-- `revision` is the item's validated revision reference.
pub record InventoryItem : Type 0 where
  pub artifact_id : Str
  pub revision : Json

pub data ServingState : Type 0 where
  known : List InventoryItem → ServingState
  unknown : Str → Option (List Str) → ServingState

-- What parseObservation returns, with the members of the payload that are read.
pub record Observation : Type 0 where
  pub repository_id : Str
  pub service_id : Str
  pub environment : Str
  pub provider : Str
  pub effective_order : Str
  pub authority_id : Str
  pub reference : Str
  pub access_label : Str
  pub completeness : Completeness
  pub serving_state : ServingState
  pub rollback_request_id : Option Str

pub data Verdict : Type 0 where
  apply stale replay reconcile : Verdict

abbrev completeness_name : Completeness → Str
completeness_name Completeness.complete = lit "complete"
completeness_name Completeness.incomplete = lit "incomplete"
completeness_name Completeness.transitional = lit "transitional"

abbrev pub item_before : InventoryItem → InventoryItem → Bool
item_before left right = str_lt left.artifact_id right.artifact_id

abbrev item_json : InventoryItem → Json
item_json i =
    obj (field (lit "artifact_id") (str i.artifact_id) (field (lit "revision") i.revision end))

inventory_items : List InventoryItem → Items
inventory_items [] = nil
inventory_items (i ∷ is) = cons (item_json i) (inventory_items is)

abbrev observed_fields : Option (List Str) → Fields
observed_fields none = end
observed_fields (some ids) = field (lit "observed_artifact_ids") (arr (items ids)) end

serving_json : ServingState → Json
unfolding inventory_items sort items
serving_json (known inventory) = obj (
    field (lit "status") (str (lit "known"))
      (field (lit "inventory") (arr (inventory_items (sort item_before inventory))) end))
serving_json (unknown reason ids) = obj (
    field (lit "status") (str (lit "unknown"))
      (field (lit "reason") (str reason) (observed_fields ids)))

abbrev rollback_fields : Option Str → Fields
rollback_fields none = end
rollback_fields (some id) = field (lit "rollback_request_id") (str id) end

-- The part of an observation that is hashed.
unfoldable pub state_json : Observation → Json
unfolding serving_json
state_json o = obj (
    field (lit "completeness") (str (completeness_name o.completeness)) (
      field (lit "source_access_label") (str o.access_label) (
        field (lit "serving_state") (serving_json o.serving_state)
          (rollback_fields o.rollback_request_id))))

-- `sha256`: the hexadecimal digest of node:crypto.
module _ (sha256 : Str → Str) where
  -- stateHash(payload), `none` where the canonical serializer refuses
  unfoldable pub state_hash : Observation → Option Str
  unfolding state_json serialize
  state_hash o = do text ← serialize (state_json o); some (lit "sha256:" ++ sha256 text)

  -- The last test: one reference, and one hash.
  unfoldable pub same_observation : Observation → Observation → Option Bool
  unfolding state_hash str_eq
  same_observation current incoming =
      if str_eq current.reference incoming.reference
      then (do left ← state_hash current; right ← state_hash incoming; some (str_eq left right))
      else some false

  by_order : SequenceOrder → Observation → Observation → Option Verdict
  unfolding same_observation
  by_order newer current incoming = some apply
  by_order older current incoming = some stale
  by_order _ current incoming = do
    same ← same_observation current incoming
    some (if same then replay else reconcile)

  abbrev pub same_subject : Observation → Observation → Bool
  same_subject a b =
      str_eq a.repository_id b.repository_id
      && (str_eq a.service_id b.service_id && str_eq a.environment b.environment)

  abbrev pub comparable : Observation → Observation → Bool
  comparable current incoming =
      str_eq current.provider incoming.provider
      && (str_eq current.authority_id incoming.authority_id
          && is_canonical_decimal current.effective_order)

  against : Observation → Observation → Option Verdict
  unfolding by_order compare_decimal str_eq is_canonical_decimal
  against current incoming =
      let compared =
        by_order (compare_decimal current.effective_order incoming.effective_order) current
          incoming in
      if not (is_canonical_decimal incoming.effective_order)
      then some reconcile
      else if not (comparable current incoming)
      then some reconcile
      else compared

  -- classifyServingObservation; `none` is INVALID_ENVIRONMENT_INPUT, or a refusal of the serializer
  unfoldable pub classify_serving_observation : Option Observation → Observation → Option Verdict
  unfolding against str_eq is_canonical_decimal
  classify_serving_observation none incoming =
      some (if is_canonical_decimal incoming.effective_order then apply else reconcile)
  classify_serving_observation (some current) incoming =
      if same_subject current incoming then against current incoming else none
