-- ===== src/Updates/Differences/Absence.antt =====
-- packages/updates/src/differences.ts: what the comparison says of facts that are gone.
use api_truth.Prelude.{
  Bool, true, false, ◌&&◌, not, ◌≡◌, refl, Option, none, some, List, [], ◌∷◌, ◌++◌, all, arith, inl,
  inr, Bool-cases,
}
use api_truth.Prelude.Text.{Str, str_eq}
use api_truth.Prelude.Sets.{lookup}
use api_truth.Updates.Differences.Facts.{RequestBody, Claim, Endpoint, Facts}
use api_truth.Updates.Differences.Canonical.{canonical_json, put_all}
use api_truth.Updates.Differences.Projection.{parameter_key, response_groups}
use api_truth.Updates.Differences.Conditions.{
  build_claim_partitions, ClaimMemberProjection, Outcome,
}
use api_truth.Updates.Differences.Claims.{ClaimOwner, claim_owner}
use api_truth.Updates.Differences.ClaimDrafts.{
  partition_outcomes, condition_drafts, remaining_drafts, group_drafts,
}
use api_truth.Updates.Differences.Drafts.{
  DifferenceKind, endpoint_removed, endpoint_absence_unconfirmed, parameter_removed,
  request_body_removed, response_removed, schema_removed, claim_removed, fact_absence_unconfirmed,
  CompatibilityLabel, potentially_breaking, unknown, DifferenceDraft,
}
use api_truth.Updates.Differences.Members.{
  FactKind, parameter_facts, body_facts, response_facts, fact_drafts, each_key, both_keys,
  all_fact_drafts, security_drafts, endpoint_member_drafts,
}

-- What a kind says of a fact that the base has.
pub data Claimed : Type 0 where
  gone gone_without_label unconfirmed nothing : Claimed

abbrev pub claimed : DifferenceKind → Claimed
claimed endpoint_removed = gone
claimed parameter_removed = gone
claimed request_body_removed = gone
claimed response_removed = gone
claimed schema_removed = gone
claimed claim_removed = gone_without_label
claimed endpoint_absence_unconfirmed = unconfirmed
claimed fact_absence_unconfirmed = unconfirmed
claimed _ = nothing

abbrev is_unknown : CompatibilityLabel → Bool
is_unknown unknown = true
is_unknown _ = false

abbrev is_potentially_breaking : CompatibilityLabel → Bool
is_potentially_breaking potentially_breaking = true
is_potentially_breaking _ = false

abbrev pub justified : Bool → Claimed → CompatibilityLabel → Bool
justified target_incomplete gone label = not target_incomplete && is_potentially_breaking label
justified target_incomplete gone_without_label label = not target_incomplete && is_unknown label
justified target_incomplete unconfirmed label = target_incomplete && is_unknown label
justified target_incomplete nothing label = true

-- A fact is said to be gone only if the target's coverage is complete, and to be unconfirmed only if
-- it is not; the label is "unknown" for the latter and for claims, and else "potentially_breaking".
abbrev pub is_justified : Bool → DifferenceDraft → Bool
is_justified target_incomplete d = justified target_incomplete (claimed d.kind) d.compatibility

all-append :
    (p : DifferenceDraft → Bool) (l m : List DifferenceDraft)
    → all p l ≡ true
    → all p m ≡ true
    → all p (l ++ m) ≡ true
all-append p [] m h k = k
all-append p (d ∷ l) m h k = ground (arith, h, k, all-append p l m)

pub record AllJustified (b : Bool) (l : List DifferenceDraft) : Type 0 where
  pub holds : all (is_justified b) l ≡ true

module _ {b : Bool} where
  pub append-AllJustified :
      {l m : List DifferenceDraft} → AllJustified b l → AllJustified b m → AllJustified b (l ++ m)
  append-AllJustified {l} {m} h k = record {
    holds = all-append (is_justified b) l m h.holds k.holds;
  }

  pub each_key-AllJustified :
      (round : Str → List DifferenceDraft)
      → ((key : Str) → AllJustified b (round key))
      → (l : List Str) → AllJustified b (each_key round l)
  unfolding each_key
  each_key-AllJustified round h [] = record { holds = refl }
  each_key-AllJustified round h (key ∷ l) =
      append-AllJustified (h key) (each_key-AllJustified round h l)

  fact_drafts-AllJustified :
      {A : Type 0} (kind : FactKind A) (key : Str) (o n : Option A)
      → claimed kind.added ≡ nothing
      → claimed kind.removed ≡ gone
      → claimed kind.changed ≡ nothing
      → AllJustified b (fact_drafts kind b key o n)
  unfolding fact_drafts
  fact_drafts-AllJustified kind key none none ha hr hc = record { holds = refl }
  fact_drafts-AllJustified kind key none (some n) ha hr hc = record { holds = rw ha refl }
  fact_drafts-AllJustified kind key (some o) none ha hr hc = elim (Bool-cases b) [
    | inl e ↦ record { holds = rw (e, fact_drafts) refl }
    | inr e ↦ record { holds = rw e (rw hr refl) }
  ]
  fact_drafts-AllJustified kind key (some o) (some n) ha hr hc =
      elim (Bool-cases
        (str_eq (canonical_json (kind.projection o)) (canonical_json (kind.projection n)))) [
          | inl e ↦ record { holds = rw e refl }
          | inr e ↦ record { holds = rw e (rw hc refl) }
        ]

  pub all_fact_drafts-AllJustified :
      {A : Type 0} (kind : FactKind A) (base target : List (Str × A))
      → claimed kind.added ≡ nothing
      → claimed kind.removed ≡ gone
      → claimed kind.changed ≡ nothing
      → AllJustified b (all_fact_drafts kind b base target)
  unfolding all_fact_drafts
  all_fact_drafts-AllJustified kind base target ha hr hc =
      each_key-AllJustified (λ key. fact_drafts kind b key (lookup key base) (lookup key target))
        (λ key. fact_drafts-AllJustified kind key (lookup key base) (lookup key target) ha hr hc)
        (both_keys base target)

  security_drafts-AllJustified :
      (service_id : Str) (e f : Endpoint) (base target : Facts)
      → AllJustified b (security_drafts service_id e f base target)
  unfolding security_drafts
  security_drafts-AllJustified service_id e f base target = record { holds = ground arith }

  pub endpoint_member_drafts-AllJustified :
      (service_id : Str) (e f : Endpoint) (base target : Facts)
      → AllJustified b (endpoint_member_drafts service_id e f base target b)
  unfolding endpoint_member_drafts parameter_facts body_facts response_facts
  endpoint_member_drafts-AllJustified service_id e f base target =
      let bodies : List RequestBody → List (Str × RequestBody) =
        λ l. put_all (λ (r : RequestBody). r.media_type) l [] in
      append-AllJustified
        (all_fact_drafts-AllJustified (parameter_facts service_id e.endpoint_id)
          (put_all parameter_key e.parameters []) (put_all parameter_key f.parameters []) refl refl
          refl)
        (append-AllJustified
          (all_fact_drafts-AllJustified (body_facts service_id e.endpoint_id)
            (bodies e.request_bodies) (bodies f.request_bodies) refl refl refl)
          (append-AllJustified
            (all_fact_drafts-AllJustified (response_facts service_id e.endpoint_id)
              (response_groups e) (response_groups f) refl refl refl)
            (security_drafts-AllJustified service_id e f base target)))

  condition_drafts-AllJustified :
      (owner : ClaimOwner) (o : Outcome) → AllJustified b (condition_drafts owner o)
  unfolding condition_drafts
  condition_drafts-AllJustified owner o = record { holds = ground arith }

  remaining_drafts-AllJustified :
      (owner : ClaimOwner) (before after : List ClaimMemberProjection)
      → AllJustified b (remaining_drafts b owner before after)
  unfolding remaining_drafts
  remaining_drafts-AllJustified owner [] [] = record { holds = refl }
  remaining_drafts-AllJustified owner [] (n ∷ after) = record { holds = refl }
  remaining_drafts-AllJustified owner (o ∷ before) [] = elim (Bool-cases b) [
    | inl e ↦ record { holds = rw e refl }
    | inr e ↦ record { holds = rw e refl }
  ]
  remaining_drafts-AllJustified owner (o ∷ before) (n ∷ after) = record { holds = refl }

  pub group_drafts-AllJustified : (old new : List Claim) → AllJustified b (group_drafts b old new)
  unfolding group_drafts
  group_drafts-AllJustified [] [] = record { holds = refl }
  group_drafts-AllJustified [] (n ∷ new) = record { holds = refl }
  group_drafts-AllJustified (o ∷ old) [] = elim (Bool-cases b) [
    | inl e ↦ record { holds = rw e refl }
    | inr e ↦ record { holds = rw e refl }
  ]
  group_drafts-AllJustified (o ∷ old) (n ∷ new) =
      let base = build_claim_partitions (o ∷ old) in
      let target = build_claim_partitions (n ∷ new) in
      let outcome = partition_outcomes base target (both_keys base target) in
      append-AllJustified (condition_drafts-AllJustified (claim_owner o) outcome) (
        remaining_drafts-AllJustified (claim_owner o) outcome.remaining_before
          outcome.remaining_after)
