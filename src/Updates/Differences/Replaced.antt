-- ===== src/Updates/Differences/Replaced.antt =====
-- packages/updates/src/differences.ts: which changes of claims break nothing.
use api_truth.Prelude.{
  Bool, true, false, not, ◌≡◌, ◌≢◌, ◌↔◌, ◌⊎◌, refl, ap, ◌∙◌, some, List, [], ◌∷◌, arith, inl, inr,
  Bool-cases, Option-cases,
}
use api_truth.Prelude.Text.{Str, lit, str_eq, str_eq_iff}
use api_truth.Prelude.Sets.{has}
use api_truth.Json.{Json, str}
use api_truth.Updates.Differences.Drafts.{non_breaking, unknown}
use api_truth.Updates.Differences.Conditions.{ClaimMemberProjection}
use api_truth.Updates.Differences.Claims.{
  member_condition_text, has_string, ClaimOwner, optional_value, restrictive_values, string_value,
  is_value, count_values, otherwise_equal_members, replaced_member, replaced_members,
  has_tightening, changed_claim_compatibility,
}

-- One string of a claim's values replaces another, and nothing else of the member changes.
pub record Replaces (before after : List ClaimMemberProjection) : Type 0 where
  pub old : ClaimMemberProjection
  pub new : ClaimMemberProjection
  pub before_is : before ≡ old ∷ []
  pub after_is : after ≡ new ∷ []
  pub verification : old.verification ≡ new.verification
  pub condition : member_condition_text old ≡ member_condition_text new
  pub restrictive : (old.value ≡ str (lit "required")) ⊎ (old.value ≡ str (lit "conditional"))
  pub relaxed : new.value ≡ str (lit "optional")

text_value : (v : Json) (s : Str) → string_value v ≡ some s → v ≡ str s
unfolding string_value
text_value v s e = ground (arith, e)

value_cases :
    (m : ClaimMemberProjection)
    → is_value restrictive_values m ≡ true
    → (m.value ≡ str (lit "required")) ⊎ (m.value ≡ str (lit "conditional"))
unfolding is_value has
value_cases m h = elim (Option-cases (string_value m.value)) [
  | inl e ↦ absurd (ground (arith, e, h))
  | inr (s, e) ↦ elim (Bool-cases (str_eq s (lit "required"))) [
    | inl f ↦ inl (text_value m.value s e ∙ ap str ((str_eq_iff s (lit "required")).0 f))
    | inr f ↦
        let g : str_eq s (lit "conditional") ≡ true = ground (arith, e, f, h) in
        inr (text_value m.value s e ∙ ap str ((str_eq_iff s (lit "conditional")).0 g))
  ]
]

optional_case :
    (m : ClaimMemberProjection) → is_value optional_value m ≡ true → m.value ≡ str (lit "optional")
unfolding is_value has
optional_case m h = elim (Option-cases (string_value m.value)) [
  | inl e ↦ absurd (ground (arith, e, h))
  | inr (s, e) ↦
      let f : str_eq s (lit "optional") ≡ true = ground (arith, e, h) in
      text_value m.value s e ∙ ap str ((str_eq_iff s (lit "optional")).0 f)
]

-- The Booleans that a string of the values answers.
record StringTests (m : ClaimMemberProjection) (is_optional : Bool) : Type 0 where
  as_optional : is_value optional_value m ≡ is_optional
  as_restrictive : is_value restrictive_values m ≡ not is_optional
  string : has_string m ≡ true

string_tests :
    (m : ClaimMemberProjection) (s : Str) (b : Bool)
    → m.value ≡ str s
    → has s optional_value ≡ b
    → has s restrictive_values ≡ not b
    → StringTests m b
unfolding is_value has_string string_value
string_tests m s b e h k = record {
  as_optional = rw e h;
  as_restrictive = rw e k;
  string = rw e refl;
}

old_tests :
    (m : ClaimMemberProjection)
    → (m.value ≡ str (lit "required")) ⊎ (m.value ≡ str (lit "conditional"))
    → StringTests m false
unfolding has str_eq
old_tests m (inl e) = string_tests m (lit "required") false e refl refl
old_tests m (inr e) = string_tests m (lit "conditional") false e refl refl

new_tests : (m : ClaimMemberProjection) → m.value ≡ str (lit "optional") → StringTests m true
unfolding has str_eq
new_tests m e = string_tests m (lit "optional") true e refl refl

-- What the code tests where one member replaces another and the label is "non_breaking".
record Passes (owner : ClaimOwner) (old new : ClaimMemberProjection) : Type 0 where
  presence : str_eq owner.predicate (lit "request.field.presence") ≡ true
  equal : otherwise_equal_members old new ≡ true
  restrictive : is_value restrictive_values old ≡ true
  relaxed : is_value optional_value new ≡ true

singletons-Passes :
    (owner : ClaimOwner) (m n : ClaimMemberProjection)
    → changed_claim_compatibility owner (m ∷ []) (n ∷ []) ≡ non_breaking
    → Passes owner m n
unfolding changed_claim_compatibility replaced_members replaced_member
singletons-Passes owner m n h = record {
  presence = ground (arith, h);
  equal = ground (arith, h);
  restrictive = ground (arith, h);
  relaxed = ground (arith, h);
}

Passes-singletons :
    (owner : ClaimOwner) (m n : ClaimMemberProjection)
    → Passes owner m n
    → StringTests m false
    → StringTests n true
    → changed_claim_compatibility owner (m ∷ []) (n ∷ []) ≡ non_breaking
unfolding changed_claim_compatibility has_tightening count_values replaced_members replaced_member
Passes-singletons owner m n p s t =
    ground
      (arith, p.presence, p.equal, s.as_optional, s.as_restrictive, t.as_optional, t.as_restrictive)

Passes-Replaces :
    (owner : ClaimOwner) (m n : ClaimMemberProjection)
    → Passes owner m n
    → Replaces (m ∷ []) (n ∷ [])
unfolding otherwise_equal_members
Passes-Replaces owner m n p =
    let e = p.equal in
    record {
      old = m;
      new = n;
      before_is = refl;
      after_is = refl;
      verification = (str_eq_iff m.verification n.verification).0 (ground (arith, e));
      condition =
          (str_eq_iff (member_condition_text m) (member_condition_text n)).0 (ground (arith, e));
      restrictive = value_cases m p.restrictive;
      relaxed = optional_case n p.relaxed;
    }

Replaces-Passes :
    (owner : ClaimOwner) (before after : List ClaimMemberProjection)
    → owner.predicate ≡ lit "request.field.presence"
    → (r : Replaces before after) → Passes owner r.old r.new
unfolding otherwise_equal_members
Replaces-Passes owner before after e r =
    let s = old_tests r.old r.restrictive in
    let t = new_tests r.new r.relaxed in
    record {
      presence = (str_eq_iff owner.predicate (lit "request.field.presence")).1 e;
      equal = ground (
        arith,
        (str_eq_iff (r.old).verification (r.new).verification).1 r.verification,
        (str_eq_iff (member_condition_text r.old) (member_condition_text r.new)).1 r.condition,
        s.string,
        t.string,
      );
      restrictive = s.as_restrictive;
      relaxed = t.as_optional;
    }

wants_single :
    (owner : ClaimOwner) (before after : List ClaimMemberProjection)
    → replaced_members before after ≡ unknown
    → changed_claim_compatibility owner before after ≢ non_breaking
unfolding changed_claim_compatibility
wants_single owner before after e h = ground (arith, e, h)

presence_owner :
    (owner : ClaimOwner) (before after : List ClaimMemberProjection)
    → changed_claim_compatibility owner before after ≡ non_breaking
    → owner.predicate ≡ lit "request.field.presence"
unfolding changed_claim_compatibility
presence_owner owner before after h =
    (str_eq_iff owner.predicate (lit "request.field.presence")).0 (ground (arith, h))

non_breaking-Replaces :
    (owner : ClaimOwner) (before after : List ClaimMemberProjection)
    → changed_claim_compatibility owner before after ≡ non_breaking
    → Replaces before after
unfolding replaced_members
non_breaking-Replaces owner (m ∷ []) (n ∷ []) h =
    Passes-Replaces owner m n (singletons-Passes owner m n h)
non_breaking-Replaces owner [] after h = absurd (wants_single owner [] after refl h)
non_breaking-Replaces owner (m ∷ []) [] h = absurd (wants_single owner (m ∷ []) [] refl h)
non_breaking-Replaces owner (m ∷ []) (n ∷ o ∷ after) h =
    absurd (wants_single owner (m ∷ []) (n ∷ o ∷ after) refl h)
non_breaking-Replaces owner (m ∷ o ∷ before) after h =
    absurd (wants_single owner (m ∷ o ∷ before) after refl h)

-- The change of claims breaks nothing exactly if they are about a request field's presence and one
-- claim replaces one, of the same verification and condition, where the value "required" or
-- "conditional" becomes "optional".
pub changed_claim_compatibility-Replaces :
    (owner : ClaimOwner) (before after : List ClaimMemberProjection)
    → (changed_claim_compatibility owner before after ≡ non_breaking)
      ↔ ((owner.predicate ≡ lit "request.field.presence") × Replaces before after)
changed_claim_compatibility-Replaces owner before after = (
  λ h. (presence_owner owner before after h, non_breaking-Replaces owner before after h),
  λ h.
      let r = h.1 in
      rw (r.before_is, r.after_is)
        (Passes-singletons owner r.old r.new (Replaces-Passes owner before after h.0 r)
          (old_tests r.old r.restrictive) (new_tests r.new r.relaxed)),
)
