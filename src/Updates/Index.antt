-- ===== src/Updates/Index.antt =====
-- packages/updates/src/planner.ts, buildEndpointOwnershipIndex: the maps that the source mutates are the
-- state, `none` is the TypeError of an endpoint that the snapshot does not have.
pub mod Inverted
use api_truth.Prelude.{
  ℕ, zero, suc, ◌+◌, ◌*◌, Bool, true, false, ◌&&◌, ◌||◌, not, Option, none, some, List, [], ◌∷◌,
  ◌++◌, map, ◌==◌, if◌then◌else◌, length, any,
}
use api_truth.Prelude.Text.{Str, str_eq}
use api_truth.Prelude.Sets.{has, add, lookup, alter}
use api_truth.Prelude.Sorting.{sort}
use api_truth.Orchestration.Canonical.{◌>>=◌}
use api_truth.Updates.Utf8.{utf8_before}
use api_truth.Updates.Snapshot.{
  ContractSnapshot, Endpoint, Evidence, Claim, Eligibility, Dependency, Target, SchemaComponent,
  Member,
}
use api_truth.Updates.References.{endpoint_schema_references}
use api_truth.Updates.Closure.{Components, component_closure}
use api_truth.Updates.Ownership.{
  OwnershipRoute, endpoint, parameter_presence, request_body_presence, claim, eligibility, schema,
  evidence_scope, dependency_evidence, dependency_schema, dependency_endpoint, Ownership,
  OwnershipIndex,
}

pub record Building : Type 0 where
  pub ownership : List (Str × Ownership)
  pub routes : List (Str × List (Str × List OwnershipRoute))

abbrev route_rank : OwnershipRoute → ℕ
route_rank endpoint = 0
route_rank parameter_presence = 1
route_rank request_body_presence = 2
route_rank claim = 3
route_rank eligibility = 4
route_rank schema = 5
route_rank evidence_scope = 6
route_rank dependency_evidence = 7
route_rank dependency_schema = 8
route_rank dependency_endpoint = 9

abbrev insert_route : OwnershipRoute → List OwnershipRoute → List OwnershipRoute
insert_route r routes =
    if any (λ s. route_rank r == route_rank s) routes then routes else routes ++ r ∷ []

add_route :
    List (Str × List (Str × List OwnershipRoute))
    → Str
    → Str
    → OwnershipRoute
    → List (Str × List (Str × List OwnershipRoute))
unfolding alter
add_route routes evidence_id endpoint_id route =
    alter evidence_id [] (alter endpoint_id [] (insert_route route)) routes

-- What a step leaves, and whether it changed an ownership.
abbrev Step : Type 0
Step = Option (Building × Bool)

set_ownership : Str → Ownership → List (Str × Ownership) → List (Str × Ownership)
unfolding alter
set_ownership endpoint_id o m = alter endpoint_id o (λ old. o) m

add_evidence : Str → OwnershipRoute → Str → Building → Step
unfolding add_route set_ownership lookup has add
add_evidence endpoint_id route evidence_id b = elim (lookup endpoint_id b.ownership) [
  | none ↦ none
  | some o ↦ some (
    record {
      ownership =
          set_ownership endpoint_id
            (record { evidence_ids = add evidence_id o.evidence_ids; schema_ids = o.schema_ids })
            b.ownership;
      routes = add_route b.routes evidence_id endpoint_id route;
    },
    not (has evidence_id o.evidence_ids),
  )
]

add_evidences : Str → OwnershipRoute → List Str → Building → Step
unfolding add_evidence
add_evidences endpoint_id route [] b = some (b, false)
add_evidences endpoint_id route (id ∷ ids) b = do
  first ← add_evidence endpoint_id route id b
  rest ← add_evidences endpoint_id route ids first.0
  some (rest.0, first.1 || rest.1)

add_schema_id : Str → Str → Building → Step
unfolding set_ownership lookup has add
add_schema_id endpoint_id schema_id b = elim (lookup endpoint_id b.ownership) [
  | none ↦ none
  | some o ↦ some (
    record {
      ownership =
          set_ownership endpoint_id
            (record { evidence_ids = o.evidence_ids; schema_ids = add schema_id o.schema_ids })
            b.ownership;
      routes = b.routes;
    },
    not (has schema_id o.schema_ids),
  )
]

add_schema_ids : Str → List Str → Building → Step
unfolding add_schema_id
add_schema_ids endpoint_id [] b = some (b, false)
add_schema_ids endpoint_id (id ∷ ids) b = do
  first ← add_schema_id endpoint_id id b
  rest ← add_schema_ids endpoint_id ids first.0
  some (rest.0, first.1 || rest.1)

module _ (snapshot : ContractSnapshot) where
  -- One component of the closure, with its evidence.
  add_component : Str → OwnershipRoute → Str → Building → Step
  unfolding add_schema_id add_evidences lookup
  add_component endpoint_id route schema_id b = do
    first ← add_schema_id endpoint_id schema_id b
    component ← lookup schema_id snapshot.schemas
    rest ← add_evidences endpoint_id route component.evidence_ids first.0
    some (rest.0, first.1 || rest.1)

  add_components : Str → OwnershipRoute → List Str → Building → Step
  unfolding add_component
  add_components endpoint_id route [] b = some (b, false)
  add_components endpoint_id route (id ∷ ids) b = do
    first ← add_component endpoint_id route id b
    rest ← add_components endpoint_id route ids first.0
    some (rest.0, first.1 || rest.1)

  add_schemas : Str → OwnershipRoute → List Str → Building → Step
  unfolding add_components component_closure
  add_schemas endpoint_id route schema_ids b = do
    reached ← component_closure snapshot.schemas schema_ids
    add_components endpoint_id route reached b

  add_members : Str → OwnershipRoute → List Member → Building → Step
  unfolding add_evidences
  add_members endpoint_id route [] b = some (b, false)
  add_members endpoint_id route (m ∷ ms) b = do
    first ← add_evidences endpoint_id route m.presence_evidence_ids b
    add_members endpoint_id route ms first.0

  abbrev no_ownership : Ownership
  no_ownership = record { evidence_ids = []; schema_ids = [] }

  add_endpoint : Endpoint → Building → Step
  unfolding set_ownership add_evidences add_members add_schemas endpoint_schema_references
  add_endpoint e b = do
    own ← add_evidences e.endpoint_id endpoint e.evidence_ids (record {
      ownership = set_ownership e.endpoint_id no_ownership b.ownership;
      routes = b.routes;
    })
    parameters ← add_members e.endpoint_id parameter_presence e.parameters own.0
    bodies ← add_members e.endpoint_id request_body_presence e.request_bodies parameters.0
    add_schemas e.endpoint_id schema (endpoint_schema_references e) bodies.0

  add_eligible : Str → Str → List Eligibility → Building → Step
  unfolding add_evidences str_eq
  add_eligible endpoint_id claim_id [] b = some (b, false)
  add_eligible endpoint_id claim_id (e ∷ es) b = do
    first ←
        add_evidences endpoint_id eligibility
          (elim e.basis [ none ↦ [] | some ids ↦ if str_eq e.claim_id claim_id then ids else [] ]) b
    add_eligible endpoint_id claim_id es first.0

  add_claim : Claim → Building → Step
  unfolding add_evidences add_eligible
  add_claim c b = elim c.endpoint_id [
    | none ↦ some (b, false)
    | some endpoint_id ↦ (do
      first ← add_evidences endpoint_id claim c.evidence_ids b
      add_eligible endpoint_id c.claim_id snapshot.export_eligibility first.0)
  ]

  add_scope : Evidence → Building → Step
  unfolding add_evidence
  add_scope e b = elim e.scope_endpoint_id [
    | none ↦ some (b, false)
    | some endpoint_id ↦ add_evidence endpoint_id evidence_scope e.evidence_id b
  ]

  add_target : Str → Target → Building → Step
  unfolding add_evidence add_evidences add_schemas add_schema_ids lookup
  add_target from (Target.evidence id) b = add_evidence from dependency_evidence id b
  add_target from (Target.schema id) b = add_schemas from dependency_schema (id ∷ []) b
  add_target from (Target.endpoint id) b = do
    target ← lookup id b.ownership
    first ← add_evidences from dependency_endpoint target.evidence_ids b
    rest ← add_schema_ids from target.schema_ids first.0
    some (rest.0, first.1 || rest.1)

  add_dependency : Dependency → Building → Step
  unfolding add_evidences add_target
  add_dependency d b = do
    first ← add_evidences d.from_endpoint_id dependency_evidence d.evidence_ids b
    rest ← add_target d.from_endpoint_id d.to first.0
    some (rest.0, first.1 || rest.1)

  -- for (const x of xs) step(x), over all of `xs`
  for_each {ℓ} : {A : Type ℓ} → (A → Building → Step) → List A → Building → Step
  for_each step [] b = some (b, false)
  for_each step (x ∷ xs) b = do
    first ← step x b
    rest ← for_each step xs first.0
    some (rest.0, first.1 || rest.1)

  -- while (changed), on fuel
  saturate : ℕ → Building → Option Building
  unfolding for_each add_dependency
  saturate zero b = none
  saturate (suc n) b = do
    pass ← for_each add_dependency snapshot.dependencies b
    let more = saturate n pass.0
    if pass.1 then more else some pass.0

-- for (const [endpointId, ownership] of endpointOwnership) for (const id of ids) owners(id).add(endpointId)
unfoldable pub own_all : Str → List Str → List (Str × List Str) → List (Str × List Str)
unfolding alter add
own_all endpoint_id [] owners = owners
own_all endpoint_id (id ∷ ids) owners =
    own_all endpoint_id ids (alter id [] (add endpoint_id) owners)

unfoldable pub inverted :
    (Ownership → List Str) → List (Str × Ownership) → List (Str × List Str) → List (Str × List Str)
unfolding own_all
inverted ids [] owners = owners
inverted ids ((endpoint_id, o) ∷ m) owners = inverted ids m (own_all endpoint_id (ids o) owners)

index_of : Building → OwnershipIndex
unfolding inverted sort
index_of b = record {
  endpoint_ids = sort utf8_before (map (λ (e : Str × Ownership). e.0) b.ownership);
  evidence_owners = inverted (λ o. o.evidence_ids) b.ownership [];
  schema_owners = inverted (λ o. o.schema_ids) b.ownership [];
  evidence_owner_routes = b.routes;
  endpoint_ownership = b.ownership;
}

-- The loops in order; `fuel` bounds the passes over the dependencies.
unfoldable pub build_endpoint_ownership_index : ℕ → ContractSnapshot → Option OwnershipIndex
unfolding for_each add_endpoint add_claim add_scope saturate index_of
build_endpoint_ownership_index fuel snapshot = do
  endpoints ←
      for_each snapshot (add_endpoint snapshot) snapshot.endpoints
        (record { ownership = []; routes = [] })
  claims ← for_each snapshot (add_claim snapshot) snapshot.claims endpoints.0
  scopes ← for_each snapshot (add_scope snapshot) snapshot.evidence claims.0
  built ← saturate snapshot fuel scopes.0
  some (index_of built)
