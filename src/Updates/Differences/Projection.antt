-- ===== src/Updates/Differences/Projection.antt =====
-- packages/updates/src/differences.ts: the projections of facts that are compared, as JSON.
use api_truth.Prelude.{Option, none, some, List, [], ◌∷◌, ◌++◌, map, if◌then◌else◌, String}
use api_truth.Prelude.Text.{Str, lit}
use api_truth.Prelude.Sets.{alter}
use api_truth.Prelude.Sorting.{sort}
use api_truth.Json.{Json, boolean, number, str}
use api_truth.Updates.Utf8.{utf8_before}
use api_truth.Updates.Plan.{is_empty}
use api_truth.Updates.Differences.Facts.{
  Presence, required, optional, conditional, Parameter, PropertyEncoding, RequestBody, Status,
  exact, range, default, Content, Header, Response, Endpoint,
}
use api_truth.Updates.Differences.Canonical.{
  canonical_json, array, object, canonical_schema, canonical_condition, ascii_lower,
}

-- { key: value, ...rest }
abbrev pub with : String → Json → List (Str × Json) → List (Str × Json)
with k v rest = (lit k, v) ∷ rest

-- { ...(value === undefined ? {} : { key: value }), ...rest }
abbrev pub with_some : String → Option Json → List (Str × Json) → List (Str × Json)
with_some k none rest = rest
with_some k (some v) rest = (lit k, v) ∷ rest

abbrev pub or_undefined : {A : Type 0} → (A → Json) → Option A → Option Json
or_undefined f none = none
or_undefined f (some a) = some (f a)

abbrev pub state_name : Presence → Str
state_name required = lit "required"
state_name optional = lit "optional"
state_name Presence.unknown = lit "unknown"
state_name (conditional c) = lit "conditional"

unfoldable pub presence_projection : Presence → Json
unfolding object canonical_condition
presence_projection (conditional c) =
    object (with "state" (str (lit "conditional")) (with "condition" (canonical_condition c) []))
presence_projection p = object (with "state" (str (state_name p)) [])

unfoldable pub parameter_key : Parameter → Str
unfolding canonical_json array
parameter_key p = canonical_json (array (str p.location ∷ str p.name ∷ []))

unfoldable pub parameter_projection : Parameter → Json
unfolding object presence_projection canonical_schema
parameter_projection p = object (
    with "name" (str p.name) (
      with "in" (str p.location) (
        with "presence" (presence_projection p.presence)
          (with "schema" (canonical_schema p.schema) (with "serialization" p.serialization [])))))

property_projection : Str × PropertyEncoding → Str × Json
unfolding object
property_projection (property, e) = (
  property,
  object (
      with_some "style" (or_undefined str e.style) (
        with_some "explode" (or_undefined boolean e.explode)
          (with_some "content_type" (or_undefined str e.content_type) []))),
)

-- An empty map is as good as none.
unfoldable pub request_body_encoding_projection :
    Option (List (Str × PropertyEncoding)) → Option Json
unfolding object property_projection
request_body_encoding_projection none = none
request_body_encoding_projection (some []) = none
request_body_encoding_projection (some (e ∷ l)) = some (object (map property_projection (e ∷ l)))

unfoldable pub body_projection : RequestBody → Json
unfolding object presence_projection canonical_schema request_body_encoding_projection
body_projection b = object (
    with "media_type" (str b.media_type) (
      with "presence" (presence_projection b.presence) (
        with "schema" (canonical_schema b.schema) (
          with "serialization" b.serialization
            (with_some "encoding" (request_body_encoding_projection b.encoding) [])))))

unfoldable pub status_key : Status → Str
unfolding canonical_json array
status_key (exact code) = canonical_json (array (str (lit "exact") ∷ number code ∷ []))
status_key (range r) = canonical_json (array (str (lit "range") ∷ str r ∷ []))
status_key default = canonical_json (array (str (lit "default") ∷ []))
status_key (Status.unknown reason) = canonical_json (array (str (lit "unknown") ∷ str reason ∷ []))

status_json : Status → Json
unfolding object
status_json (exact code) = object (with "kind" (str (lit "exact")) (with "code" (number code) []))
status_json (range r) = object (with "kind" (str (lit "range")) (with "range" (str r) []))
status_json default = object (with "kind" (str (lit "default")) [])
status_json (Status.unknown reason) =
    object (with "kind" (str (lit "unknown")) (with "reason" (str reason) []))

pub record ResponseGroup : Type 0 where
  pub status : Status
  pub content : List Content
  pub headers : List Header

content_of : Content → Content
unfolding canonical_schema
content_of c = record {
  media_type = c.media_type;
  schema = canonical_schema c.schema;
  serialization = c.serialization;
}

header_of : Header → Header
unfolding canonical_schema ascii_lower
header_of h = record { name = ascii_lower h.name; schema = canonical_schema h.schema }

-- group.content.push(...), group.headers.push(...)
push_response : Response → ResponseGroup → ResponseGroup
unfolding content_of header_of
push_response r g = record {
  status = g.status;
  content = g.content ++ map content_of r.content;
  headers = g.headers ++ map header_of r.headers;
}

group_responses : List Response → List (Str × ResponseGroup) → List (Str × ResponseGroup)
unfolding alter status_key push_response
group_responses [] groups = groups
group_responses (r ∷ l) groups = group_responses l (
    alter (status_key r.status) (record { status = r.status; content = []; headers = [] })
      (push_response r) groups)

sort_group : Str × ResponseGroup → Str × ResponseGroup
unfolding sort
sort_group (key, g) = (
  key,
  record {
    status = g.status;
    content = sort (λ (a b : Content). utf8_before a.media_type b.media_type) g.content;
    headers = sort (λ (a b : Header). utf8_before a.name b.name) g.headers;
  },
)

unfoldable pub response_groups : Endpoint → List (Str × ResponseGroup)
unfolding group_responses sort_group
response_groups e = map sort_group (group_responses e.responses [])

content_json : Content → Json
unfolding object
content_json c = object (
    with "media_type" (str c.media_type)
      (with "schema" c.schema (with "serialization" c.serialization [])))

header_json : Header → Json
unfolding object
header_json h = object (with "name" (str h.name) (with "schema" h.schema []))

unfoldable pub response_projection : ResponseGroup → Json
unfolding object array status_json content_json header_json
response_projection g = object (
    with "status" (status_json g.status) (
      with "content" (array (map content_json g.content)) (
        with_some "headers"
          (if is_empty g.headers then none else some (array (map header_json g.headers))) [])))
