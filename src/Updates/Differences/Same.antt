-- ===== src/Updates/Differences/Same.antt =====
-- packages/updates/src/differences.ts: a snapshot compared with itself.
use api_truth.Prelude.{Bool, ◌≡◌, refl, Option, none, some, List, [], ◌∷◌, ◌++◌, arith, String}
use api_truth.Prelude.Text.{Str, str_eq_refl, str_lt_irrefl}
use api_truth.Prelude.Sets.{has, lookup}
use api_truth.Updates.Snapshot.{ContractSnapshot}
use api_truth.Updates.Ownership.{OwnershipIndex}
use api_truth.Updates.Utf8.{utf8}
use api_truth.Updates.Differences.Facts.{Claim, Endpoint, Diagnostic, Facts, is_incomplete}
use api_truth.Updates.Differences.Canonical.{put_all, canonical_json}
use api_truth.Updates.Differences.Endpoints.{endpoints_by_id, route_identity_key}
use api_truth.Updates.Differences.Members.{
  FactKind, fact_drafts, both_keys, all_fact_drafts, security_drafts, endpoint_member_drafts,
}
use api_truth.Updates.Differences.Continuous.{discontinuous_endpoint_ids_same}
use api_truth.Updates.Differences.Keys.{each_key-all_nil}
use api_truth.Updates.Differences.Conditions.{
  Conditions, ClaimPartition, Outcome, condition_text, condition_before, cancel_equal_conditions,
  build_claim_partitions, conditions_of, null_count, take, drop, pair_up,
}
use api_truth.Updates.Differences.ClaimDrafts.{
  claims_at, group_key, group_claims, partition_outcome, partition_outcomes, group_drafts,
  claim_drafts, condition_drafts, remaining_drafts,
}
use api_truth.Updates.Differences.Snapshots.{
  endpoint_drafts, same_identity_version, all_endpoint_drafts,
}
use api_truth.Updates.Differences.Analysis.{
  with_ids, schema_facts, schema_drafts, coverage_drafts, diagnostic_drafts, all_diagnostic_drafts,
}
use api_truth.Updates.Differences.Checks.{diagnostic_key}
use api_truth.Updates.Differences.Claims.{claim_owner_key}
use api_truth.Updates.Differences.Compare.{claim_drafts_if_comparable, drafts}

fact_drafts_same :
    {A : Type 0} (kind : FactKind A) (b : Bool) (key : Str) (o : Option A)
    → fact_drafts kind b key o o ≡ []
unfolding fact_drafts
fact_drafts_same kind b key none = refl
fact_drafts_same kind b key (some a) = rw (str_eq_refl (canonical_json (kind.projection a))) refl

all_fact_drafts_same :
    {A : Type 0} (kind : FactKind A) (b : Bool) (m : List (Str × A))
    → all_fact_drafts kind b m m ≡ []
unfolding all_fact_drafts
all_fact_drafts_same kind b m =
    each_key-all_nil (λ key. fact_drafts kind b key (lookup key m) (lookup key m)) (both_keys m m)
      (λ key. fact_drafts_same kind b key (lookup key m))

endpoint_member_drafts_same :
    (service_id : Str) (e : Endpoint) (s : Facts) (b : Bool)
    → endpoint_member_drafts service_id e e s s b ≡ []
unfolding endpoint_member_drafts security_drafts
endpoint_member_drafts_same service_id e s b =
    rw
      (
        all_fact_drafts_same _ b (put_all _ e.parameters []),
        all_fact_drafts_same _ b (put_all _ e.request_bodies []),
        all_fact_drafts_same _ b _,
        str_eq_refl _,
      )
      refl

endpoint_drafts_same :
    (s : Facts) (id : Str) (o : Option Endpoint) → endpoint_drafts s s id o o ≡ []
unfolding endpoint_drafts
endpoint_drafts_same s id none = refl
endpoint_drafts_same s id (some e) =
    rw (str_eq_refl (route_identity_key e), endpoint_member_drafts_same _ e s _, str_eq_refl _) refl

cancel_equal_conditions_same :
    (l : Conditions) → cancel_equal_conditions l l ≡ record { before = []; after = [] }
unfolding cancel_equal_conditions condition_before
cancel_equal_conditions_same [] = refl
cancel_equal_conditions_same (x ∷ l) =
    ground (arith, str_lt_irrefl (utf8 (condition_text x)), cancel_equal_conditions_same l)

abbrev nothing : Outcome
nothing = record {
  added = [];
  removed = [];
  changed_before = [];
  changed_after = [];
  remaining_before = [];
  remaining_after = [];
}

partition_outcome_same : (o : Option ClaimPartition) → partition_outcome o o ≡ nothing
unfolding partition_outcome pair_up conditions_of null_count take drop
partition_outcome_same none = refl
partition_outcome_same (some p) = rw (cancel_equal_conditions_same p.members) refl

partition_outcomes_same :
    (m : List (Str × ClaimPartition)) (l : List Str) → partition_outcomes m m l ≡ nothing
unfolding partition_outcomes
partition_outcomes_same m [] = refl
partition_outcomes_same m (key ∷ l) =
    rw (partition_outcome_same (lookup key m), partition_outcomes_same m l) refl

group_drafts_same : (b : Bool) (claims : List Claim) → group_drafts b claims claims ≡ []
unfolding group_drafts condition_drafts remaining_drafts
group_drafts_same b [] = refl
group_drafts_same b (c ∷ l) = rw (partition_outcomes_same (build_claim_partitions (c ∷ l)) _) refl

-- Without a discontinuous endpoint the side is not part of a key.
group_key_lem : (side : String) (c : Claim) → group_key [] side c ≡ claim_owner_key c
unfolding group_key
group_key_lem side c = by_endpoint c.endpoint_id refl
  where
    by_endpoint : (o : Option Str) → c.endpoint_id ≡ o → group_key [] side c ≡ claim_owner_key c
    by_endpoint none e = rw e refl
    by_endpoint (some id) e = rw e (unfold has in refl)

group_claims_lem :
    (a b : String) (l : List Claim) (groups : List (Str × List Claim))
    → group_claims [] a l groups ≡ group_claims [] b l groups
unfolding group_claims
group_claims_lem a b [] groups = refl
group_claims_lem a b (c ∷ l) groups =
    rw (group_key_lem a c, group_key_lem b c) (group_claims_lem a b l _)

claim_drafts_same : (s : Facts) → claim_drafts s s ≡ []
unfolding claim_drafts
claim_drafts_same s =
    let groups = group_claims [] "target" s.claims [] in
    rw (discontinuous_endpoint_ids_same s.endpoints, group_claims_lem "base" "target" s.claims [])
      (each_key-all_nil
        (λ key.
          group_drafts (is_incomplete s.coverage) (claims_at key groups) (claims_at key groups))
        (both_keys groups groups)
        (λ key. group_drafts_same (is_incomplete s.coverage) (claims_at key groups)))

diagnostic_drafts_same : (s : Facts) (o : Option Diagnostic) → diagnostic_drafts s s o o ≡ []
unfolding diagnostic_drafts
diagnostic_drafts_same s none = refl
diagnostic_drafts_same s (some d) = rw (str_eq_refl _) refl

all_endpoint_drafts_same : (s : Facts) → all_endpoint_drafts s s ≡ []
unfolding all_endpoint_drafts same_identity_version
all_endpoint_drafts_same s =
    let endpoints = endpoints_by_id s.endpoints in
    rw (str_eq_refl s.identity_version) (
      each_key-all_nil
        (λ key. endpoint_drafts s s key (lookup key endpoints) (lookup key endpoints))
        (both_keys endpoints endpoints) (λ key. endpoint_drafts_same s key (lookup key endpoints)))

analysis_same : (s : Facts) → (coverage_drafts s s ++ all_diagnostic_drafts s s) ≡ []
unfolding coverage_drafts all_diagnostic_drafts
analysis_same s =
    let m = put_all diagnostic_key s.diagnostics [] in
    rw (str_eq_refl _) (
      each_key-all_nil (λ key. diagnostic_drafts s s (lookup key m) (lookup key m)) (both_keys m m)
        (λ key. diagnostic_drafts_same s (lookup key m)))

pub drafts_same : (build : ContractSnapshot → OwnershipIndex) (s : Facts) → drafts build s s ≡ []
unfolding drafts schema_drafts claim_drafts_if_comparable same_identity_version
drafts_same build s =
    rw
      (
        all_endpoint_drafts_same s,
        all_fact_drafts_same (schema_facts s s build) (is_incomplete s.coverage)
            (with_ids s.schemas),
        str_eq_refl s.identity_version,
        claim_drafts_same s,
      )
      (analysis_same s)
