-- ===== src/Updates/Snapshot.antt =====
-- packages/ir/src: the parts of a contract snapshot that the update planner reads.
use api_truth.Prelude.{Bool, Option, List}
use api_truth.Prelude.Text.{Str}

-- ApiSchema, with the members that hold a reference or another schema. `additionalProperties` stands
-- here if it is a schema.
mutual
  pub data ApiSchema : Type 0 where
    schema :
        (reference : Option Str) (properties : Properties) (items : Maybe) (prefix_items : Schemas)
        (additional_properties : Maybe) (one_of any_of all_of : Schemas) (negated : Maybe)
        → ApiSchema

  pub data Properties : Type 0 where
    end : Properties
    property : Str → ApiSchema → Properties → Properties

  pub data Maybe : Type 0 where
    absent : Maybe
    present : ApiSchema → Maybe

  pub data Schemas : Type 0 where
    nil : Schemas
    cons : ApiSchema → Schemas → Schemas

pub record SchemaComponent : Type 0 where
  pub schema_id : Str
  pub schema : ApiSchema
  pub evidence_ids : List Str

-- A parameter or a request body: its presence fact's evidence and its schema.
pub record Member : Type 0 where
  pub presence_evidence_ids : List Str
  pub schema : ApiSchema

-- The schemas of a response's contents and headers.
pub record Response : Type 0 where
  pub content : List ApiSchema
  pub headers : List ApiSchema

pub record Endpoint : Type 0 where
  pub endpoint_id : Str
  pub evidence_ids : List Str
  pub parameters : List Member
  pub request_bodies : List Member
  pub responses : List Response

pub record Evidence : Type 0 where
  pub evidence_id : Str
  pub path : Option Str
  pub scope_endpoint_id : Option Str

pub record Claim : Type 0 where
  pub claim_id : Str
  pub endpoint_id : Option Str
  pub evidence_ids : List Str

-- `basis` is there if the status is "eligible".
pub record Eligibility : Type 0 where
  pub claim_id : Str
  pub basis : Option (List Str)

pub data Target : Type 0 where
  evidence schema endpoint : Str → Target

pub record Dependency : Type 0 where
  pub from_endpoint_id : Str
  pub to : Target
  pub evidence_ids : List Str

-- What determines an analysis besides the source.
pub record AnalysisKey : Type 0 where
  pub analyzer_id : Str
  pub analyzer_version : Str
  pub analyzer_exchange_version : Str
  pub ir_version : Str
  pub identity_version : Str
  pub config_version : Str
  pub config_fingerprint : Str

-- `analysis` holds the snapshot's own analyzer, versions and configuration; its exchange version is
-- not part of a snapshot, and not read.
pub record ContractSnapshot : Type 0 where
  pub repository_id : Str
  pub service_id : Str
  pub service_root : Str
  pub analysis : AnalysisKey
  pub snapshot_id : Str
  pub immutable_revision : Str
  pub source_digest : Str
  pub coverage_complete : Bool
  pub schemas : List (Str × SchemaComponent)
  pub endpoints : List Endpoint
  pub claims : List Claim
  pub export_eligibility : List Eligibility
  pub evidence : List Evidence
  pub dependencies : List Dependency
