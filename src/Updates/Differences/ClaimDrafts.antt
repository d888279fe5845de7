-- ===== src/Updates/Differences/ClaimDrafts.antt =====
-- packages/updates/src/differences.ts, addClaimDrafts: the claims of both snapshots in groups by
-- owner, and the drafts of each group.
use api_truth.Prelude.{Bool, false, Option, none, some, List, [], ◌∷◌, ◌++◌, if◌then◌else◌, String}
use api_truth.Prelude.Text.{Str, lit, str_eq}
use api_truth.Prelude.Sets.{has, alter, lookup}
use api_truth.Json.{Json, str}
use api_truth.Updates.Differences.Facts.{Claim, Endpoint, Facts, is_incomplete}
use api_truth.Updates.Differences.Canonical.{canonical_json, unique_sorted, array}
use api_truth.Updates.Differences.Endpoints.{endpoints_by_id, route_identity_key}
use api_truth.Updates.Differences.Drafts.{
  DifferenceKind, fact_absence_unconfirmed, claim_added, claim_removed, claim_changed,
  condition_added, condition_removed, condition_changed, CompatibilityLabel, potentially_breaking,
  unknown, DifferenceSubject, DifferenceDraft,
}
use api_truth.Updates.Differences.Members.{each_key, both_keys}
use api_truth.Updates.Differences.Conditions.{
  Conditions, ClaimPartition, build_claim_partitions, cancel_equal_conditions,
  ClaimMemberProjection, Outcome, pair_up,
}
use api_truth.Updates.Differences.Claims.{
  ClaimOwner, claim_owner, claim_owner_key, claim_subject, condition_subject,
  canonical_claim_members, project_claim_group, changed_claim_compatibility,
}

-- Endpoints of both snapshots whose route's identity differs.
unfoldable pub discontinuous_endpoint_ids : List (Str × Endpoint) → List (Str × Endpoint) → List Str
unfolding lookup str_eq route_identity_key
discontinuous_endpoint_ids [] target = []
discontinuous_endpoint_ids ((id, before) ∷ base) target = elim (lookup id target) [
  | none ↦ discontinuous_endpoint_ids base target
  | some after ↦
      if str_eq (route_identity_key before) (route_identity_key after)
      then discontinuous_endpoint_ids base target
      else id ∷ discontinuous_endpoint_ids base target
]

is_among : Option Str → List Str → Bool
unfolding has
is_among none ids = false
is_among (some id) ids = has id ids

unfoldable pub group_key : List Str → String → Claim → Str
unfolding claim_owner_key canonical_json array is_among
group_key discontinuous side c =
    if is_among c.endpoint_id discontinuous
    then canonical_json (array (str (claim_owner_key c) ∷ str (lit side) ∷ []))
    else claim_owner_key c

unfoldable pub group_claims :
    List Str → String → List Claim → List (Str × List Claim) → List (Str × List Claim)
unfolding alter group_key
group_claims discontinuous side [] groups = groups
group_claims discontinuous side (c ∷ l) groups =
    group_claims discontinuous side l
      (alter (group_key discontinuous side c) [] (λ (claims : List Claim). claims ++ c ∷ []) groups)

abbrev no_outcome : Outcome
no_outcome = record {
  added = [];
  removed = [];
  changed_before = [];
  changed_after = [];
  remaining_before = [];
  remaining_after = [];
}

join_outcomes : Outcome → Outcome → Outcome
join_outcomes o p = record {
  added = o.added ++ p.added;
  removed = o.removed ++ p.removed;
  changed_before = o.changed_before ++ p.changed_before;
  changed_after = o.changed_after ++ p.changed_after;
  remaining_before = o.remaining_before ++ p.remaining_before;
  remaining_after = o.remaining_after ++ p.remaining_after;
}

-- partition?.members ?? []
members_of : Option ClaimPartition → Conditions
members_of none = []
members_of (some p) = p.members

-- One partition key's round, at a key of either map.
unfoldable pub partition_outcome : Option ClaimPartition → Option ClaimPartition → Outcome
unfolding pair_up cancel_equal_conditions members_of
partition_outcome none none = no_outcome
partition_outcome (some p) target =
    pair_up p (cancel_equal_conditions p.members (members_of target))
partition_outcome none (some p) = pair_up p (cancel_equal_conditions [] p.members)

unfoldable pub partition_outcomes :
    List (Str × ClaimPartition) → List (Str × ClaimPartition) → List Str → Outcome
unfolding partition_outcome join_outcomes lookup
partition_outcomes base target [] = no_outcome
partition_outcomes base target (key ∷ keys) =
    join_outcomes (partition_outcome (lookup key base) (lookup key target))
      (partition_outcomes base target keys)

unfoldable pub draft :
    DifferenceKind
    → CompatibilityLabel
    → DifferenceSubject
    → Option Json
    → Option Json
    → DifferenceDraft
draft kind compatibility subject before after = record {
  kind = kind;
  compatibility = compatibility;
  subject = subject;
  before = before;
  after = after;
}

-- if (assignments.length > 0) drafts.push(...)
push_unless_empty : List Json → DifferenceDraft → List DifferenceDraft
push_unless_empty [] d = []
push_unless_empty (a ∷ l) d = d ∷ []

assignments : List Json → Json
unfolding array unique_sorted canonical_json
assignments l = array (unique_sorted canonical_json l)

unfoldable pub condition_drafts : ClaimOwner → Outcome → List DifferenceDraft
unfolding draft push_unless_empty assignments condition_subject array
condition_drafts owner o =
    push_unless_empty o.added (
      draft condition_added potentially_breaking (condition_subject owner) (some (array []))
        (some (assignments o.added)))
    ++ (push_unless_empty o.removed (
          draft condition_removed unknown (condition_subject owner) (some (assignments o.removed))
            (some (array [])))
        ++ push_unless_empty o.changed_before (
            draft condition_changed potentially_breaking (condition_subject owner)
              (some (assignments o.changed_before)) (some (assignments o.changed_after))))

unfoldable pub absence_kind : Bool → DifferenceKind
absence_kind target_incomplete =
    if target_incomplete then fact_absence_unconfirmed else claim_removed

unfoldable pub remaining_drafts :
    Bool
    → ClaimOwner
    → List ClaimMemberProjection
    → List ClaimMemberProjection
    → List DifferenceDraft
unfolding draft canonical_claim_members claim_subject changed_claim_compatibility absence_kind
remaining_drafts target_incomplete owner [] [] = []
remaining_drafts target_incomplete owner [] (n ∷ after) =
    draft claim_added unknown (claim_subject owner) none
      (some (canonical_claim_members (n ∷ after)))
    ∷ []
remaining_drafts target_incomplete owner (o ∷ before) [] =
    draft (absence_kind target_incomplete) unknown (claim_subject owner)
      (some (canonical_claim_members (o ∷ before))) none
    ∷ []
remaining_drafts target_incomplete owner (o ∷ before) (n ∷ after) =
    draft claim_changed (changed_claim_compatibility owner (o ∷ before) (n ∷ after))
      (claim_subject owner) (some (canonical_claim_members (o ∷ before)))
      (some (canonical_claim_members (n ∷ after)))
    ∷ []

outcome_drafts : Bool → ClaimOwner → Outcome → List DifferenceDraft
unfolding condition_drafts remaining_drafts
outcome_drafts target_incomplete owner o =
    condition_drafts owner o
    ++ remaining_drafts target_incomplete owner o.remaining_before o.remaining_after

-- One owner's round; its groups are empty if a map does not have the key.
unfoldable pub group_drafts : Bool → List Claim → List Claim → List DifferenceDraft
unfolding draft claim_owner claim_subject project_claim_group absence_kind partition_outcomes
    build_claim_partitions both_keys outcome_drafts
group_drafts target_incomplete [] [] = []
group_drafts target_incomplete [] (new ∷ claims) =
    draft claim_added unknown (claim_subject (claim_owner new)) none
      (some (project_claim_group (new ∷ claims)))
    ∷ []
group_drafts target_incomplete (old ∷ claims) [] =
    draft (absence_kind target_incomplete) unknown (claim_subject (claim_owner old))
      (some (project_claim_group (old ∷ claims))) none
    ∷ []
group_drafts target_incomplete (old ∷ olds) (new ∷ news) =
    let base = build_claim_partitions (old ∷ olds) in
    let target = build_claim_partitions (new ∷ news) in
    outcome_drafts target_incomplete (claim_owner old)
      (partition_outcomes base target (both_keys base target))

-- groups.get(key) ?? []
unfoldable pub claims_at : Str → List (Str × List Claim) → List Claim
unfolding lookup
claims_at key groups = elim (lookup key groups) [ none ↦ [] | some claims ↦ claims ]

-- addClaimDrafts
unfoldable pub claim_drafts : Facts → Facts → List DifferenceDraft
unfolding discontinuous_endpoint_ids group_claims each_key group_drafts claims_at both_keys
    endpoints_by_id is_incomplete
claim_drafts base target =
    let discontinuous =
      discontinuous_endpoint_ids (endpoints_by_id base.endpoints)
        (endpoints_by_id target.endpoints) in
    let base_groups = group_claims discontinuous "base" base.claims [] in
    let target_groups = group_claims discontinuous "target" target.claims [] in
    each_key
      (λ key.
        group_drafts (is_incomplete target.coverage) (claims_at key base_groups)
          (claims_at key target_groups))
      (both_keys base_groups target_groups)
