-- ===== src/Updates/Differences/Facts.antt =====
-- packages/ir/src: the members of a contract snapshot that packages/updates/src/differences.ts
-- compares. Schemas, conditions and serializations are the JSON that they are.
use api_truth.Prelude.{Option, List, Bool, true, false}
use api_truth.Prelude.Text.{Str}
use api_truth.Json.{Json, Number}
use api_truth.Updates.Snapshot.{ContractSnapshot}

-- PresenceFact, without its evidence.
pub data Presence : Type 0 where
  required optional unknown : Presence
  conditional : (condition : Json) → Presence

pub record Parameter : Type 0 where
  pub name : Str
  pub location : Str
  pub presence : Presence
  pub schema : Json
  pub serialization : Json

-- A property's entry of FormEncoding.
pub record PropertyEncoding : Type 0 where
  pub style : Option Str
  pub explode : Option Bool
  pub content_type : Option Str

pub record RequestBody : Type 0 where
  pub media_type : Str
  pub presence : Presence
  pub schema : Json
  pub serialization : Json
  pub encoding : Option (List (Str × PropertyEncoding))

pub data Status : Type 0 where
  exact : Number → Status
  range : Str → Status
  default : Status
  unknown : Str → Status

pub record Content : Type 0 where
  pub media_type : Str
  pub schema : Json
  pub serialization : Json

pub record Header : Type 0 where
  pub name : Str
  pub schema : Json

-- `headers` is empty if it is left out.
pub record Response : Type 0 where
  pub status : Status
  pub content : List Content
  pub headers : List Header

pub record Requirement : Type 0 where
  pub scheme : Str
  pub scopes : List Str

pub record EndpointIdentity : Type 0 where
  pub identity_version : Str
  pub route_key : Str
  pub service_id : Str
  pub method : Str
  pub normalized_path_shape : Str
  pub selectors : Json

pub record Endpoint : Type 0 where
  pub endpoint_id : Str
  pub identity : EndpointIdentity
  pub application_path : Str
  pub parameters : List Parameter
  pub request_bodies : List RequestBody
  pub responses : List Response
  pub security_state : Option Str
  pub alternatives : List (List Requirement)

pub record Claim : Type 0 where
  pub service_id : Str
  pub endpoint_id : Option Str
  pub schema_pointer : Option Str
  pub predicate : Str
  pub value : Json
  pub verification : Str
  pub condition : Option Json

pub data Coverage : Type 0 where
  complete : Coverage
  incomplete : (reason : Str) → Coverage

pub record Diagnostic : Type 0 where
  pub code : Str
  pub severity : Str
  pub affected_endpoint_ids : List Str

-- A ContractSnapshot: `contract` holds what the ownership index reads of it, the other fields what
-- the comparison does. `schemas` maps a schema's id to its `schema`, `security_schemes` a name to
-- its `definition`.
pub record Facts : Type 0 where
  pub contract : ContractSnapshot
  pub root : Str
  pub identity_version : Str
  pub coverage : Coverage
  pub endpoints : List Endpoint
  pub schemas : List (Str × Json)
  pub security_schemes : List (Str × Json)
  pub claims : List Claim
  pub diagnostics : List Diagnostic

-- coverage.status === "incomplete"
unfoldable pub is_incomplete : Coverage → Bool
is_incomplete complete = false
is_incomplete (incomplete reason) = true
