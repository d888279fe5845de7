-- ===== src/Updates/Differences/Labels.antt =====
-- packages/updates/src/differences.ts: the compatibility labels of added and changed members.
use api_truth.Prelude.{Bool, not, ◌||◌, Option, none, some, List, [], if◌then◌else◌}
use api_truth.Prelude.Text.{Str, str_eq}
use api_truth.Json.{Json, null}
use api_truth.Updates.Differences.Facts.{
  Presence, required, optional, conditional, Parameter, PropertyEncoding, RequestBody,
}
use api_truth.Updates.Differences.Canonical.{canonical_json, object, canonical_schema}
use api_truth.Updates.Differences.Projection.{with, request_body_encoding_projection}
use api_truth.Updates.Differences.Drafts.{
  CompatibilityLabel, non_breaking, potentially_breaking, unknown,
}

-- What the labels read of a parameter or a request body; a parameter has no encoding.
pub record Member : Type 0 where
  pub presence : Presence
  pub schema : Json
  pub serialization : Json
  pub encoding : Option (List (Str × PropertyEncoding))

abbrev pub parameter_member : Parameter → Member
parameter_member p = record {
  presence = p.presence;
  schema = p.schema;
  serialization = p.serialization;
  encoding = none;
}

abbrev pub body_member : RequestBody → Member
body_member b = record {
  presence = b.presence;
  schema = b.schema;
  serialization = b.serialization;
  encoding = b.encoding;
}

or_null : Option Json → Json
or_null none = null
or_null (some v) = v

-- The texts of what stands at a member besides its presence.
unfoldable pub schema_text : Member → Str
unfolding canonical_json object canonical_schema
schema_text m =
    canonical_json
      (object (with "schema" (canonical_schema m.schema) (with "serialization" m.serialization [])))

unfoldable pub encoding_text : Member → Str
unfolding canonical_json request_body_encoding_projection or_null
encoding_text m = canonical_json (or_null (request_body_encoding_projection m.encoding))

unfoldable pub otherwise_equal : Member → Member → Bool
unfolding str_eq schema_text
otherwise_equal before after = str_eq (schema_text before) (schema_text after)

unfoldable pub encoding_equal : Member → Member → Bool
unfolding str_eq encoding_text
encoding_equal before after = str_eq (encoding_text before) (encoding_text after)

-- The label of two presence states of otherwise equal members.
unfoldable pub presence_change : Presence → Presence → CompatibilityLabel
presence_change Presence.unknown after = unknown
presence_change before Presence.unknown = unknown
presence_change optional required = potentially_breaking
presence_change optional (conditional c) = potentially_breaking
presence_change required optional = non_breaking
presence_change (conditional c) optional = non_breaking
presence_change before after = potentially_breaking

unfoldable pub changed_member_compatibility : Member → Member → CompatibilityLabel
unfolding otherwise_equal encoding_equal presence_change
changed_member_compatibility before after =
    if not (otherwise_equal before after) || not (encoding_equal before after)
    then potentially_breaking
    else presence_change before.presence after.presence

unfoldable pub added_member_compatibility : Presence → CompatibilityLabel
added_member_compatibility optional = non_breaking
added_member_compatibility Presence.unknown = unknown
added_member_compatibility required = potentially_breaking
added_member_compatibility (conditional c) = potentially_breaking
