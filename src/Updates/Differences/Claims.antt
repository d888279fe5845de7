-- ===== src/Updates/Differences/Claims.antt =====
-- packages/updates/src/differences.ts: the drafts for claims, addClaimDrafts.
use api_truth.Prelude.{
  ℕ, Bool, true, false, not, ◌&&◌, Option, none, some, List, [], ◌∷◌, map, length, filter, ltb,
  if◌then◌else◌,
}
use api_truth.Prelude.Text.{Str, lit, str_eq}
use api_truth.Prelude.Sets.{has}
use api_truth.Json.{Json, null, str}
use api_truth.Updates.Differences.Facts.{Claim}
use api_truth.Updates.Differences.Canonical.{canonical_json, unique_sorted, array}
use api_truth.Updates.Differences.Drafts.{
  CompatibilityLabel, non_breaking, potentially_breaking, unknown, DifferenceSubject,
}
use api_truth.Updates.Differences.Conditions.{
  ClaimMemberProjection, claim_member_projection, member_json,
}

pub record ClaimOwner : Type 0 where
  pub service_id : Str
  pub endpoint_id : Option Str
  pub schema_pointer : Option Str
  pub predicate : Str

unfoldable pub claim_owner : Claim → ClaimOwner
claim_owner c = record {
  service_id = c.service_id;
  endpoint_id = c.endpoint_id;
  schema_pointer = c.schema_pointer;
  predicate = c.predicate;
}

or_null : Option Str → Json
or_null none = null
or_null (some s) = str s

unfoldable pub claim_owner_key : Claim → Str
unfolding canonical_json array or_null
claim_owner_key c = canonical_json (
    array
      (str c.service_id ∷ or_null c.endpoint_id ∷ or_null c.schema_pointer ∷ str c.predicate ∷ []))

unfoldable pub claim_subject : ClaimOwner → DifferenceSubject
unfolding canonical_json array or_null
claim_subject o = record {
  service_id = o.service_id;
  endpoint_id = o.endpoint_id;
  component_id = none;
  affected_endpoint_ids = [];
  fact_kind = lit "claim";
  fact_key = canonical_json (
      array (
        str (lit "claim")
        ∷ or_null o.endpoint_id
        ∷ or_null o.schema_pointer
        ∷ str o.predicate
        ∷ []));
}

unfoldable pub condition_subject : ClaimOwner → DifferenceSubject
unfolding canonical_json array or_null
condition_subject o = record {
  service_id = o.service_id;
  endpoint_id = o.endpoint_id;
  component_id = none;
  affected_endpoint_ids = [];
  fact_kind = lit "condition_group";
  fact_key = canonical_json (
      array (
        str (lit "condition_group")
        ∷ str (lit "claim")
        ∷ or_null o.endpoint_id
        ∷ or_null o.schema_pointer
        ∷ str o.predicate
        ∷ []));
}

-- canonicalClaimMembers, as the JSON array that a draft holds
unfoldable pub canonical_claim_members : List ClaimMemberProjection → Json
unfolding array unique_sorted canonical_json member_json
canonical_claim_members l = array (unique_sorted canonical_json (map member_json l))

unfoldable pub project_claim_group : List Claim → Json
unfolding canonical_claim_members claim_member_projection
project_claim_group l =
    canonical_claim_members
      (map (λ (c : Claim). claim_member_projection c.value c.verification c.condition) l)

-- typeof value === "string", and which
unfoldable pub string_value : Json → Option Str
string_value (str s) = some s
string_value v = none

unfoldable pub is_value : List Str → ClaimMemberProjection → Bool
unfolding has string_value
is_value names m = elim (string_value m.value) [ none ↦ false | some s ↦ has s names ]

abbrev pub optional_value : List Str
optional_value = lit "optional" ∷ []

abbrev pub restrictive_values : List Str
restrictive_values = lit "required" ∷ lit "conditional" ∷ []

unfoldable pub count_values : List Str → List ClaimMemberProjection → ℕ
unfolding is_value
count_values names l = length (filter (is_value names) l)

condition_or_null : Option Json → Json
condition_or_null none = null
condition_or_null (some c) = c

-- canonicalJson(member.condition ?? null)
unfoldable pub member_condition_text : ClaimMemberProjection → Str
unfolding canonical_json condition_or_null
member_condition_text m = canonical_json (condition_or_null m.condition)

-- typeof member.value === "string"
unfoldable pub has_string : ClaimMemberProjection → Bool
unfolding string_value
has_string m = elim (string_value m.value) [ none ↦ false | some s ↦ true ]

-- Both values are strings, and the rest of the two members agrees.
unfoldable pub otherwise_equal_members : ClaimMemberProjection → ClaimMemberProjection → Bool
unfolding str_eq member_condition_text has_string
otherwise_equal_members old new =
    str_eq old.verification new.verification
    && (str_eq (member_condition_text old) (member_condition_text new)
        && (has_string old && has_string new))

-- The label of one member that replaces another.
unfoldable pub replaced_member : ClaimMemberProjection → ClaimMemberProjection → CompatibilityLabel
unfolding otherwise_equal_members is_value
replaced_member old new =
    if not (otherwise_equal_members old new)
    then unknown
    else if is_value optional_value old && is_value restrictive_values new
    then potentially_breaking
    else if is_value restrictive_values old && is_value optional_value new
    then non_breaking
    else unknown

unfoldable pub replaced_members :
    List ClaimMemberProjection → List ClaimMemberProjection → CompatibilityLabel
unfolding replaced_member
replaced_members (old ∷ []) (new ∷ []) = replaced_member old new
replaced_members before after = unknown

-- More members restrict a field, and fewer leave it optional.
unfoldable pub has_tightening : List ClaimMemberProjection → List ClaimMemberProjection → Bool
unfolding count_values
has_tightening before after =
    ltb (count_values optional_value after) (count_values optional_value before)
    && ltb (count_values restrictive_values before) (count_values restrictive_values after)

unfoldable pub changed_claim_compatibility :
    ClaimOwner → List ClaimMemberProjection → List ClaimMemberProjection → CompatibilityLabel
unfolding str_eq has_tightening replaced_members
changed_claim_compatibility owner before after =
    if not (str_eq owner.predicate (lit "request.field.presence"))
    then unknown
    else if has_tightening before after
    then potentially_breaking
    else replaced_members before after
