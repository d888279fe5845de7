-- ===== src/Updates/Ownership.antt =====
-- packages/updates/src/planner.ts: the ownership index, which the planner takes as an argument.
use api_truth.Prelude.{List, [], none, some}
use api_truth.Prelude.Text.{Str}
use api_truth.Prelude.Sets.{lookup}

pub data OwnershipRoute : Type 0 where
  endpoint parameter_presence request_body_presence claim eligibility schema : OwnershipRoute
  evidence_scope dependency_evidence dependency_schema dependency_endpoint : OwnershipRoute

pub record Ownership : Type 0 where
  pub evidence_ids : List Str
  pub schema_ids : List Str

-- The maps of EndpointOwnershipIndex, as lists of entries.
pub record OwnershipIndex : Type 0 where
  pub endpoint_ids : List Str
  pub evidence_owners : List (Str × List Str)
  pub schema_owners : List (Str × List Str)
  pub evidence_owner_routes : List (Str × List (Str × List OwnershipRoute))
  pub endpoint_ownership : List (Str × Ownership)

-- map.get(key) ?? new Set()
unfoldable pub owners_of : List (Str × List Str) → Str → List Str
unfolding lookup
owners_of m key = elim (lookup key m) [ none ↦ [] | some owners ↦ owners ]
