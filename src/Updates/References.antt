-- ===== src/Updates/References.antt =====
-- packages/updates/src/planner.ts: the components that a schema refers to.
pub mod Pointers
pub mod Collected
use api_truth.Prelude.{
  ℕ, Bool, true, false, ◌&&◌, ◌||◌, not, Option, none, some, List, [], ◌∷◌, ◌++◌, ◌==◌,
  if◌then◌else◌,
}
use api_truth.Prelude.Text.{Str, lit, after_prefix}
use api_truth.Prelude.Sets.{add}
use api_truth.Updates.Snapshot.{
  ApiSchema, schema, Properties, end, property, Maybe, absent, present, Schemas, nil, cons,
  Endpoint, Member, Response,
}

-- !/~(?![01])/u.test(encoded)
well_escaped : Str → Bool
well_escaped [] = true
well_escaped (a ∷ []) = not (a == b'~')
well_escaped (a ∷ b ∷ s) = (not (a == b'~') || (b == b'0' || b == b'1')) && well_escaped (b ∷ s)

-- s.replaceAll("~" + digit, unit)
replace_escape : ℕ → ℕ → Str → Str
replace_escape digit unit [] = []
replace_escape digit unit (a ∷ []) = a ∷ []
replace_escape digit unit (a ∷ b ∷ s) =
    let replaced = unit ∷ replace_escape digit unit s in
    let kept = a ∷ replace_escape digit unit (b ∷ s) in
    if a == b'~' && b == digit then replaced else kept

decode : Str → Option Str
unfolding well_escaped replace_escape
decode [] = none
decode (a ∷ s) =
    if well_escaped (a ∷ s)
    then some (replace_escape b'0' b'~' (replace_escape b'1' b'/' (a ∷ s)))
    else none

unfoldable pub local_component_id : Str → Option Str
unfolding decode after_prefix
local_component_id reference = elim (after_prefix (lit "#/schemas/") reference) [
  | none ↦ none
  | some encoded ↦ decode encoded
]

add_reference : Option Str → List Str → List Str
unfolding local_component_id add
add_reference none output = output
add_reference (some reference) output = elim (local_component_id reference) [
  | none ↦ output
  | some id ↦ add id output
]

-- collectSchemaReferences(value, output), over the set `output`
unfoldable mutual
  unfolding add_reference

  pub collect : ApiSchema → List Str → List Str
  collect (schema reference properties items prefix additional one any all negated) output =
      collect_maybe negated (
        collect_schemas all (
          collect_schemas any (
            collect_schemas one (
              collect_maybe additional (
                collect_schemas prefix (
                  collect_maybe items
                    (collect_properties properties (add_reference reference output))))))))

  pub collect_properties : Properties → List Str → List Str
  collect_properties end output = output
  collect_properties (property name value rest) output =
      collect_properties rest (collect value output)

  pub collect_maybe : Maybe → List Str → List Str
  collect_maybe absent output = output
  collect_maybe (present value) output = collect value output

  pub collect_schemas : Schemas → List Str → List Str
  collect_schemas nil output = output
  collect_schemas (cons value rest) output = collect_schemas rest (collect value output)

collect_members : List Member → List Str → List Str
collect_members [] output = output
collect_members (m ∷ ms) output = collect_members ms (collect m.schema output)

collect_list : List ApiSchema → List Str → List Str
collect_list [] output = output
collect_list (s ∷ ss) output = collect_list ss (collect s output)

collect_responses : List Response → List Str → List Str
unfolding collect_list
collect_responses [] output = output
collect_responses (r ∷ rs) output =
    collect_responses rs (collect_list r.headers (collect_list r.content output))

unfoldable pub endpoint_schema_references : Endpoint → List Str
unfolding collect_members collect_responses
endpoint_schema_references e =
    collect_responses e.responses
      (collect_members e.request_bodies (collect_members e.parameters []))
