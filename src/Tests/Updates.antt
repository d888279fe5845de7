-- ===== src/Tests/Updates.antt =====
-- Runs of packages/updates/src at concrete inputs.
use api_truth.Prelude.{
  Option, none, ◌≡◌, ◌↔◌, refl, arith, true, false, ◌&&◌, ◌||◌, some, List, [], ◌∷◌, any,
}
use api_truth.Prelude.Text.{Str, lit, str_eq, str_eq_iff}
use api_truth.Prelude.Sets.{has, add}
use api_truth.Orchestration.Canonical.{serialize}
use api_truth.Updates.Snapshot.{
  ApiSchema, Properties, Maybe, Schemas, ContractSnapshot, AnalysisKey,
}
use api_truth.Updates.Closure.{Components, component_closure}
use api_truth.Updates.Closure.Reach.{Reached, component_closure-Reached}
use api_truth.Updates.Ownership.{Ownership, OwnershipIndex, owners_of}
use api_truth.Updates.Index.{inverted, build_endpoint_ownership_index}
use api_truth.Updates.Index.Inverted.{owners_of-inverted}
use api_truth.Updates.Snapshot
use api_truth.Updates.Plan.{Content, UpdatePlan, validate_plan, reuse_base_snapshot}
use api_truth.Updates.Utf8.Apart.{AreApart}
use api_truth.Updates.Planner.Valid.{create_update_planner_valid}
use api_truth.Updates.Input.Errors.{
  scope_reported, analysis_reported, validate_planning_input-eq-err,
}
use api_truth.Updates.Changed.{service_relative_path}
use api_truth.Updates.Changed.Owned.{owns}
use api_truth.Updates.Input.{
  PlanningInput, ok, err, update_scope_mismatch, update_analysis_mismatch, has_input_shape,
  semantic_issues, validate_planning_input,
}
use api_truth.Updates.Planner.{
  changes_of, boundary, reuse_content, plan_content, create_update_planner,
}
use api_truth.Updates.Shape.{is_revision, is_update_plan}
use api_truth.Updates.Planner.Affected.{IsUnchanged, affected-owns, reuses-IsUnchanged}

-- { $ref: "#/schemas/Order" }
abbrev order_reference : ApiSchema
order_reference =
    ApiSchema.schema (some (lit "#/schemas/Order")) Properties.end Maybe.absent Schemas.nil
      Maybe.absent Schemas.nil Schemas.nil Schemas.nil Maybe.absent

-- A component that refers to itself.
abbrev components : Components
components =
    (
      lit "Order",
      record { schema_id = lit "Order"; schema = order_reference; evidence_ids = lit "e2" ∷ [] },
    )
    ∷ []

component_closure-Reached_example :
    (r : List Str) × (component_closure components (lit "Order" ∷ []) ≡ some r)
    × ((x : Str) → (has x r ≡ true) ↔ Reached components (lit "Order" ∷ []) x)
component_closure-Reached_example = component_closure-Reached components (lit "Order" ∷ [])

abbrev digest_one : Str
digest_one = lit "sha256:1111111111111111111111111111111111111111111111111111111111111111"

abbrev digest_two : Str
digest_two = lit "sha256:2222222222222222222222222222222222222222222222222222222222222222"

abbrev analysis : AnalysisKey
analysis = record {
  analyzer_id = lit "nodejs";
  analyzer_version = lit "1.0.0";
  analyzer_exchange_version = lit "1";
  ir_version = lit "1";
  identity_version = lit "1";
  config_version = lit "1";
  config_fingerprint = lit "f";
}

abbrev snapshot : ContractSnapshot
snapshot = record {
  repository_id = lit "r";
  service_id = lit "s";
  service_root = lit ".";
  analysis = analysis;
  snapshot_id = lit "s1";
  immutable_revision = lit "aaaaaaaaaaaa";
  source_digest = digest_one;
  coverage_complete = true;
  schemas = components;
  endpoints = [];
  claims = [];
  export_eligibility = [];
  evidence =
      record { evidence_id = lit "e1"; path = some (lit "a.ts"); scope_endpoint_id = none } ∷ [];
  dependencies = [];
}

-- "GET" owns the evidence and the schema, "PUT" nothing.
abbrev build : ContractSnapshot → OwnershipIndex
build s = record {
  endpoint_ids = lit "GET" ∷ lit "PUT" ∷ [];
  evidence_owners = (lit "e1", lit "GET" ∷ []) ∷ [];
  schema_owners = (lit "Order", lit "GET" ∷ []) ∷ [];
  evidence_owner_routes = [];
  endpoint_ownership =
      (lit "GET", record { evidence_ids = lit "e1" ∷ []; schema_ids = lit "Order" ∷ [] })
      ∷ (lit "PUT", record { evidence_ids = []; schema_ids = [] })
      ∷ [];
}

abbrev planning : Str → List Str → PlanningInput
planning digest paths = record {
  base_snapshot = snapshot;
  base_analysis_key = analysis;
  target = record {
    repository_id = lit "r";
    service_id = lit "s";
    service_root = lit ".";
    immutable_revision = lit "bbbbbbbbbbbb";
    source_digest = digest;
    analysis_key = analysis;
  };
  changed_paths = paths;
  changed_paths_complete = true;
}

abbrev changed : PlanningInput
changed = planning digest_two (lit "a.ts" ∷ [])

abbrev no_content : Content
no_content = reuse_content changed

abbrev planned : Content
planned = elim (plan_content build changed) [ none ↦ no_content | some c ↦ c ]

is_planned : plan_content build changed ≡ some planned
unfolding plan_content serialize add
is_planned = refl

affected-owns_example : has (lit "GET") planned.affected_endpoint_ids ≡ (
    boundary (changes_of changed) && has (lit "GET") (build snapshot).endpoint_ids
    || any
        (λ p. owns snapshot (build snapshot) (lit "GET") (service_relative_path p (lit ".")))
        (lit "a.ts" ∷ []))
unfolding changes_of str_eq
affected-owns_example = affected-owns build changed planned (lit "GET") refl is_planned

reuses-IsUnchanged_example :
    ((content : Content) × (plan_content build (planning digest_one []) ≡ some content)
      × (content.action ≡ reuse_base_snapshot))
    ↔ IsUnchanged (planning digest_one [])
reuses-IsUnchanged_example = reuses-IsUnchanged build (planning digest_one [])

-- The same source and analysis reuse the snapshot.
unchanged :
    plan_content build (planning digest_one []) ≡ some (reuse_content (planning digest_one []))
unfolding plan_content serialize
unchanged = refl

affected_test : planned.affected_endpoint_ids ≡ lit "GET" ∷ []
unfolding plan_content serialize add
affected_test = refl

single-AreApart : (z : Str) → AreApart (z ∷ [])
unfolding has
single-AreApart z x y mx my n = absurd (n (ground (arith, mx, my, str_eq_iff x z, str_eq_iff y z)))

-- The snapshot has no issues of its own.
abbrev no_codes : ContractSnapshot → List Str
no_codes s = []

no_issues : semantic_issues no_codes changed ≡ []
unfolding semantic_issues serialize
no_issues = refl

has_shape : has_input_shape changed ≡ true
unfolding has_input_shape
has_shape = refl

base_revision : is_revision (lit "aaaaaaaaaaaa") ≡ true
unfolding is_revision
base_revision = refl

create_update_planner_valid_example :
    (plan : UpdatePlan) × (create_update_planner (λ text. text) no_codes build changed ≡ ok plan)
    × (plan.content ≡ planned)
    × (is_update_plan plan ≡ true)
    × (validate_plan (λ text. text) plan ≡ [])
create_update_planner_valid_example =
    create_update_planner_valid (λ text. text) no_codes build changed planned has_shape no_issues
      refl base_revision is_planned (rw affected_test refl)
      (rw affected_test (single-AreApart (lit "GET")))

validate_planning_input-eq-err_example :
    ((validate_planning_input no_codes changed ≡ err update_scope_mismatch)
      ↔ (scope_reported [] changed ≡ true))
    × ((validate_planning_input no_codes changed ≡ err update_analysis_mismatch)
        ↔ ((scope_reported [] changed ≡ false) × (analysis_reported [] changed ≡ true)))
validate_planning_input-eq-err_example = validate_planning_input-eq-err no_codes changed has_shape

abbrev ownership : List (Str × Ownership)
ownership =
    (lit "GET", record { evidence_ids = lit "e1" ∷ []; schema_ids = [] })
    ∷ (lit "PUT", record { evidence_ids = lit "e1" ∷ lit "e2" ∷ []; schema_ids = [] })
    ∷ []

abbrev evidence_of : Ownership → List Str
evidence_of o = o.evidence_ids

owners_of-inverted_example :
    has (lit "PUT") (owners_of (inverted evidence_of ownership []) (lit "e1"))
    ≡ any
        (λ (e : Str × Ownership). str_eq (lit "PUT") e.0 && has (lit "e1") (evidence_of e.1))
        ownership
owners_of-inverted_example = owners_of-inverted evidence_of ownership (lit "e1") (lit "PUT")

-- Two endpoints, of which "PUT" depends on "GET".
abbrev two_endpoints : ContractSnapshot
two_endpoints = record snapshot {
  endpoints =
      record {
        endpoint_id = lit "GET";
        evidence_ids = lit "e1" ∷ [];
        parameters = [];
        request_bodies = [];
        responses = [];
      }
      ∷ record {
        endpoint_id = lit "PUT";
        evidence_ids = lit "e2" ∷ [];
        parameters = [];
        request_bodies = [];
        responses = [];
      }
      ∷ [];
  dependencies =
      record {
        from_endpoint_id = lit "PUT";
        to = Snapshot.Target.endpoint (lit "GET");
        evidence_ids = lit "e3" ∷ [];
      }
      ∷ [];
}

abbrev owners_in : Option OwnershipIndex → Str → List Str
owners_in none id = []
owners_in (some index) id = owners_of index.evidence_owners id

owners_test :
    owners_in (build_endpoint_ownership_index 3 two_endpoints) (lit "e1")
    ≡ lit "GET" ∷ lit "PUT" ∷ []
unfolding build_endpoint_ownership_index owners_of
owners_test = refl
