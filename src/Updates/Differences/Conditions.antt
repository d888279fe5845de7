-- ===== src/Updates/Differences/Conditions.antt =====
-- packages/updates/src/differences.ts: the partitions of a group of claims by value and
-- verification, and the cancellation of the conditions that both sides have.
use api_truth.Prelude.{
  ℕ, zero, suc, ◌-◌, min, Bool, true, false, Option, none, some, List, [], ◌∷◌, ◌++◌, map, length,
}
use api_truth.Prelude.Text.{Str}
use api_truth.Prelude.Sets.{alter}
use api_truth.Prelude.Sorting.{sort}
use api_truth.Json.{Json, null, str}
use api_truth.Updates.Utf8.{utf8_before}
use api_truth.Updates.Differences.Facts.{Claim}
use api_truth.Updates.Differences.Canonical.{canonical_json, object, canonical_condition}
use api_truth.Updates.Differences.Projection.{with, with_some, or_undefined}

abbrev pub Conditions : Type 0
Conditions = List (Option Json)

-- canonicalJson of a condition or null
unfoldable pub condition_text : Option Json → Str
unfolding canonical_json
condition_text none = canonical_json null
condition_text (some c) = canonical_json c

pub record ClaimPartition : Type 0 where
  pub value : Json
  pub verification : Str
  pub members : Conditions

unfoldable pub claim_partition_key : Claim → Str
unfolding canonical_json object
claim_partition_key c =
    canonical_json (object (with "value" c.value (with "verification" (str c.verification) [])))

push_member : Option Json → ClaimPartition → ClaimPartition
unfolding canonical_condition
push_member condition p = record {
  value = p.value;
  verification = p.verification;
  members = p.members ++ or_undefined canonical_condition condition ∷ [];
}

partitions_of : List Claim → List (Str × ClaimPartition) → List (Str × ClaimPartition)
unfolding alter push_member claim_partition_key
partitions_of [] m = m
partitions_of (c ∷ l) m = partitions_of l (
    alter (claim_partition_key c)
      (record { value = c.value; verification = c.verification; members = [] })
      (push_member c.condition) m)

-- compareUtf8(canonicalJson(left), canonicalJson(right)) < 0
unfoldable pub condition_before : Option Json → Option Json → Bool
unfolding condition_text
condition_before a b = utf8_before (condition_text a) (condition_text b)

sort_members : Str × ClaimPartition → Str × ClaimPartition
unfolding sort condition_before
sort_members (key, p) = (
  key,
  record {
    value = p.value;
    verification = p.verification;
    members = sort condition_before p.members;
  },
)

unfoldable pub build_claim_partitions : List Claim → List (Str × ClaimPartition)
unfolding partitions_of sort_members
build_claim_partitions claims = map sort_members (partitions_of claims [])

pub record Remaining : Type 0 where
  pub before : Conditions
  pub after : Conditions

abbrev pub push_before : Option Json → Remaining → Remaining
push_before x r = record { before = x ∷ r.before; after = r.after }

abbrev pub push_after : Option Json → Remaining → Remaining
push_after y r = record { before = r.before; after = y ∷ r.after }

unfoldable pub cancel_equal_conditions : Conditions → Conditions → Remaining
unfolding condition_before
cancel_equal_conditions [] after = record { before = []; after = after }
cancel_equal_conditions (x ∷ before) [] = record { before = x ∷ before; after = [] }
cancel_equal_conditions (x ∷ before) (y ∷ after) = elim (condition_before x y) [
  | true ↦ push_before x (cancel_equal_conditions before (y ∷ after))
  | false ↦ elim (condition_before y x) [
    | true ↦ push_after y (cancel_equal_conditions (x ∷ before) after)
    | false ↦ cancel_equal_conditions before after
  ]
]

-- list.filter((candidate) => candidate !== null)
unfoldable pub conditions_of : Conditions → List Json
conditions_of [] = []
conditions_of (none ∷ l) = conditions_of l
conditions_of (some c ∷ l) = c ∷ conditions_of l

-- list.filter((candidate) => candidate === null).length
unfoldable pub null_count : Conditions → ℕ
null_count [] = 0
null_count (none ∷ l) = suc (null_count l)
null_count (some c ∷ l) = null_count l

-- The first n, and list.splice(0, n).
unfoldable pub take {ℓ} : {A : Type ℓ} → ℕ → List A → List A
take zero l = []
take (suc n) [] = []
take (suc n) (x ∷ l) = x ∷ take n l

unfoldable pub drop {ℓ} : {A : Type ℓ} → ℕ → List A → List A
drop zero l = l
drop (suc n) [] = []
drop (suc n) (x ∷ l) = drop n l

pub record ClaimMemberProjection : Type 0 where
  pub value : Json
  pub verification : Str
  pub condition : Option Json

unfoldable pub claim_member_projection : Json → Str → Option Json → ClaimMemberProjection
unfolding canonical_condition
claim_member_projection value verification condition = record {
  value = value;
  verification = verification;
  condition = or_undefined canonical_condition condition;
}

unfoldable pub member_json : ClaimMemberProjection → Json
unfolding object
member_json m = object (
    with "value" m.value
      (with "verification" (str m.verification) (with_some "condition" m.condition [])))

-- conditionAssignment(partition, condition)
unfoldable pub condition_assignment : ClaimPartition → Json → Json
unfolding object canonical_condition
condition_assignment p condition = object (
    with "value" p.value (
      with "verification" (str p.verification)
        (with "condition" (canonical_condition condition) [])))

-- What the partitions of one group push.
pub record Outcome : Type 0 where
  pub added : List Json
  pub removed : List Json
  pub changed_before : List Json
  pub changed_after : List Json
  pub remaining_before : List ClaimMemberProjection
  pub remaining_after : List ClaimMemberProjection

nulls : ClaimPartition → ℕ → List ClaimMemberProjection
unfolding claim_member_projection
nulls p zero = []
nulls p (suc n) = claim_member_projection p.value p.verification none ∷ nulls p n

projected : ClaimPartition → List Json → List ClaimMemberProjection
unfolding claim_member_projection
projected p l = map (λ (c : Json). claim_member_projection p.value p.verification (some c)) l

-- The three pairings, and what they leave: nulls with conditions, conditions with nulls, then
-- conditions with conditions.
unfoldable pub pair_up : ClaimPartition → Remaining → Outcome
unfolding conditions_of null_count take drop condition_assignment nulls projected
pair_up p r =
    let base_nulls = null_count r.before in
    let base_conditions = conditions_of r.before in
    let target_nulls = null_count r.after in
    let target_conditions = conditions_of r.after in
    let added_count = min base_nulls (length target_conditions) in
    let target_rest = drop added_count target_conditions in
    let removed_count = min (length base_conditions) target_nulls in
    let base_rest = drop removed_count base_conditions in
    let changed_count = min (length base_rest) (length target_rest) in
    record {
      added = map (condition_assignment p) (take added_count target_conditions);
      removed = map (condition_assignment p) (take removed_count base_conditions);
      changed_before = map (condition_assignment p) (take changed_count base_rest);
      changed_after = map (condition_assignment p) (take changed_count target_rest);
      remaining_before =
          nulls p (base_nulls - added_count) ++ projected p (drop changed_count base_rest);
      remaining_after =
          nulls p (target_nulls - removed_count) ++ projected p (drop changed_count target_rest);
    }
