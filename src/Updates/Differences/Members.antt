-- ===== src/Updates/Differences/Members.antt =====
-- packages/updates/src/differences.ts: the drafts for the parameters, bodies, responses and the
-- security of an endpoint that both snapshots have.
use api_truth.Prelude.{Bool, Option, none, some, List, [], ◌∷◌, ◌++◌, if◌then◌else◌, String}
use api_truth.Prelude.Text.{Str, lit, str_eq}
use api_truth.Prelude.Sets.{lookup}
use api_truth.Json.{Json, str}
use api_truth.Updates.Differences.Facts.{Parameter, RequestBody, Endpoint, Facts}
use api_truth.Updates.Differences.Canonical.{
  canonical_json, put_all, keys_of, canonical_strings, array,
}
use api_truth.Updates.Differences.Projection.{
  parameter_key, parameter_projection, body_projection, ResponseGroup, response_groups,
  response_projection,
}
use api_truth.Updates.Differences.Labels.{
  parameter_member, body_member, changed_member_compatibility, added_member_compatibility,
}
use api_truth.Updates.Differences.Endpoints.{security_projection}
use api_truth.Updates.Differences.Drafts.{
  DifferenceKind, fact_absence_unconfirmed, parameter_added, parameter_removed, parameter_changed,
  request_body_added, request_body_removed, request_body_changed, response_added, response_removed,
  response_changed, security_changed, CompatibilityLabel, potentially_breaking, unknown,
  DifferenceSubject, DifferenceDraft,
}

-- What one of the loops over facts has of its own.
pub record FactKind (A : Type 0) : Type 0 where
  pub subject : Str → A → DifferenceSubject
  pub projection : A → Json
  pub added : DifferenceKind
  pub removed : DifferenceKind
  pub changed : DifferenceKind
  pub added_label : A → CompatibilityLabel
  pub changed_label : A → A → CompatibilityLabel

-- One round of such a loop, at a key of either map.
unfoldable pub fact_drafts :
    {A : Type 0} → FactKind A → Bool → Str → Option A → Option A → List DifferenceDraft
unfolding str_eq canonical_json
fact_drafts kind target_incomplete key none none = []
fact_drafts kind target_incomplete key none (some new) =
    record {
      kind = kind.added;
      compatibility = kind.added_label new;
      subject = kind.subject key new;
      before = none;
      after = some (kind.projection new);
    }
    ∷ []
fact_drafts kind target_incomplete key (some old) none =
    record {
      kind = if target_incomplete then fact_absence_unconfirmed else kind.removed;
      compatibility = if target_incomplete then unknown else potentially_breaking;
      subject = kind.subject key old;
      before = some (kind.projection old);
      after = none;
    }
    ∷ []
fact_drafts kind target_incomplete key (some old) (some new) =
    if str_eq (canonical_json (kind.projection old)) (canonical_json (kind.projection new))
    then []
    else record {
      kind = kind.changed;
      compatibility = kind.changed_label old new;
      subject = kind.subject key old;
      before = some (kind.projection old);
      after = some (kind.projection new);
    }
      ∷ []

-- for (const key of keys) drafts.push(...round(key))
unfoldable pub each_key : {A : Type 0} → (Str → List A) → List Str → List A
each_key round [] = []
each_key round (key ∷ keys) = round key ++ each_key round keys

unfoldable pub both_keys : {A : Type 0} → List (Str × A) → List (Str × A) → List Str
unfolding canonical_strings keys_of
both_keys base target = canonical_strings (keys_of base ++ keys_of target)

unfoldable pub all_fact_drafts :
    {A : Type 0} → FactKind A → Bool → List (Str × A) → List (Str × A) → List DifferenceDraft
unfolding fact_drafts each_key both_keys lookup
all_fact_drafts kind target_incomplete base target =
    each_key (λ key. fact_drafts kind target_incomplete key (lookup key base) (lookup key target))
      (both_keys base target)

unfoldable pub fact_subject : Str → Str → String → List Json → DifferenceSubject
unfolding canonical_json array
fact_subject service_id endpoint_id fact_kind tail = record {
  service_id = service_id;
  endpoint_id = some endpoint_id;
  component_id = none;
  affected_endpoint_ids = [];
  fact_kind = lit fact_kind;
  fact_key = canonical_json (array (str (lit fact_kind) ∷ str endpoint_id ∷ tail));
}

-- The loops' own parts, for the facts of one endpoint.
module _ (service_id endpoint_id : Str) where
  unfoldable pub parameter_facts : FactKind Parameter
  unfolding fact_subject parameter_projection added_member_compatibility
      changed_member_compatibility
  parameter_facts = record {
    subject =
        λ key p. fact_subject service_id endpoint_id "parameter" (str p.location ∷ str p.name ∷ []);
    projection = parameter_projection;
    added = parameter_added;
    removed = parameter_removed;
    changed = parameter_changed;
    added_label = λ p. added_member_compatibility p.presence;
    changed_label = λ p q. changed_member_compatibility (parameter_member p) (parameter_member q);
  }

  unfoldable pub body_facts : FactKind RequestBody
  unfolding fact_subject body_projection added_member_compatibility changed_member_compatibility
  body_facts = record {
    subject = λ key b. fact_subject service_id endpoint_id "request_body" (str b.media_type ∷ []);
    projection = body_projection;
    added = request_body_added;
    removed = request_body_removed;
    changed = request_body_changed;
    added_label = λ b. added_member_compatibility b.presence;
    changed_label = λ b c. changed_member_compatibility (body_member b) (body_member c);
  }

  unfoldable pub response_facts : FactKind ResponseGroup
  unfolding fact_subject response_projection
  response_facts = record {
    subject = λ key g. fact_subject service_id endpoint_id "response" (str key ∷ []);
    projection = response_projection;
    added = response_added;
    removed = response_removed;
    changed = response_changed;
    added_label = λ g. potentially_breaking;
    changed_label = λ g h. potentially_breaking;
  }

unfoldable pub security_drafts : Str → Endpoint → Endpoint → Facts → Facts → List DifferenceDraft
unfolding fact_subject security_projection canonical_json str_eq
security_drafts service_id before after base target =
    let old = security_projection before base in
    let new = security_projection after target in
    if str_eq (canonical_json old) (canonical_json new)
    then []
    else record {
      kind = security_changed;
      compatibility = potentially_breaking;
      subject = fact_subject service_id before.endpoint_id "security" [];
      before = some old;
      after = some new;
    }
      ∷ []

-- addEndpointMemberDrafts
unfoldable pub endpoint_member_drafts :
    Str → Endpoint → Endpoint → Facts → Facts → Bool → List DifferenceDraft
unfolding all_fact_drafts parameter_facts body_facts response_facts security_drafts put_all
    parameter_key response_groups
endpoint_member_drafts service_id before after base target target_incomplete =
    all_fact_drafts (parameter_facts service_id before.endpoint_id) target_incomplete
      (put_all parameter_key before.parameters []) (put_all parameter_key after.parameters [])
    ++ (all_fact_drafts (body_facts service_id before.endpoint_id) target_incomplete
          (put_all (λ b. b.media_type) before.request_bodies [])
          (put_all (λ b. b.media_type) after.request_bodies [])
        ++ (all_fact_drafts (response_facts service_id before.endpoint_id) target_incomplete
              (response_groups before) (response_groups after)
            ++ security_drafts service_id before after base target))
