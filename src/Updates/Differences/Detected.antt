-- ===== src/Updates/Differences/Detected.antt =====
-- packages/updates/src/differences.ts: when the comparison has nothing to say of two endpoints.
use api_truth.Prelude.{
  Bool, ◌≡◌, ◌↔◌, refl, Option, none, some, List, [], ◌∷◌, inl, inr, Bool-cases, if◌then◌else◌,
}
use api_truth.Prelude.Text.{Str, str_eq, str_eq_iff}
use api_truth.Prelude.Sets.{lookup}
use api_truth.Json.{Json, arr, items}
use api_truth.Updates.Differences.Facts.{Parameter, RequestBody, Endpoint, Facts, is_incomplete}
use api_truth.Updates.Differences.Canonical.{canonical_json, put_all}
use api_truth.Updates.Differences.Projection.{
  parameter_key, parameter_projection, body_projection, response_groups, response_projection,
}
use api_truth.Updates.Differences.Endpoints.{
  endpoints_by_id, route_identity_key, security_projection,
}
use api_truth.Updates.Differences.Drafts.{DifferenceDraft}
use api_truth.Updates.Differences.Members.{
  FactKind, parameter_facts, body_facts, response_facts, fact_drafts, all_fact_drafts,
  security_drafts, endpoint_member_drafts,
}
use api_truth.Updates.Differences.Snapshots.{
  path_names, path_names_drafts, endpoint_drafts, same_identity_version, all_endpoint_drafts,
}
use api_truth.Updates.Differences.Keys.{append-nil, each_key-both_keys}

-- Both sides have the fact, with one text of its projection, or neither has it.
abbrev pub SameFact : {A : Type 0} → (A → Json) → Option A → Option A → Type 0
SameFact projection none none = Unit
SameFact projection none (some n) = ⊥
SameFact projection (some o) none = ⊥
SameFact projection (some o) (some n) =
    canonical_json (projection o) ≡ canonical_json (projection n)

-- At every key.
abbrev pub SameFacts : {A : Type 0} → (A → Json) → List (Str × A) → List (Str × A) → Type 0
SameFacts projection m n = (key : Str) → SameFact projection (lookup key m) (lookup key n)

none_unless_equal :
    (s t : Str) (d : DifferenceDraft) → ((if str_eq s t then [] else d ∷ []) ≡ []) ↔ (s ≡ t)
none_unless_equal s t d = elim (Bool-cases (str_eq s t)) [
  | inl e ↦ rw e (λ h. (str_eq_iff s t).0 e, λ h. refl)
  | inr e ↦ rw e (λ h. cc h, λ h. cc ((str_eq_iff s t).1 h, e))
]

fact_drafts-SameFact :
    {A : Type 0} (kind : FactKind A) (b : Bool) (key : Str) (o n : Option A)
    → (fact_drafts kind b key o n ≡ []) ↔ SameFact kind.projection o n
unfolding fact_drafts
fact_drafts-SameFact kind b key none none = (λ h. tt, λ h. refl)
fact_drafts-SameFact kind b key none (some n) = (λ h. cc h, λ h. absurd h)
fact_drafts-SameFact kind b key (some o) none = (λ h. cc h, λ h. absurd h)
fact_drafts-SameFact kind b key (some o) (some n) = none_unless_equal _ _ _

all_fact_drafts-SameFacts :
    {A : Type 0} (kind : FactKind A) (b : Bool) (m n : List (Str × A))
    → (all_fact_drafts kind b m n ≡ []) ↔ SameFacts kind.projection m n
unfolding all_fact_drafts
all_fact_drafts-SameFacts kind b m n =
    let keys = each_key-both_keys (fact_drafts kind b) m n (λ key. unfold fact_drafts in refl) in
    (
      λ h key. (fact_drafts-SameFact kind b key (lookup key m) (lookup key n)).0 (keys.0 h key),
      λ h. keys.1 λ key. (fact_drafts-SameFact kind b key (lookup key m) (lookup key n)).1 (h key),
    )

abbrev pub bodies_by_media_type : List RequestBody → List (Str × RequestBody)
bodies_by_media_type l = put_all (λ (b : RequestBody). b.media_type) l []

abbrev pub parameters_by_key : List Parameter → List (Str × Parameter)
parameters_by_key l = put_all parameter_key l []

-- Two endpoints that agree in all that the contract says of them.
pub record SameEndpoint (base target : Facts) (o n : Endpoint) : Type 0 where
  pub route : route_identity_key o ≡ route_identity_key n
  pub names :
      canonical_json (arr (items (path_names o))) ≡ canonical_json (arr (items (path_names n)))
  pub parameters :
      SameFacts parameter_projection
        (parameters_by_key o.parameters)
        (parameters_by_key n.parameters)
  pub request_bodies :
      SameFacts body_projection
        (bodies_by_media_type o.request_bodies)
        (bodies_by_media_type n.request_bodies)
  pub responses : SameFacts response_projection (response_groups o) (response_groups n)
  pub security :
      canonical_json (security_projection o base) ≡ canonical_json (security_projection n target)

-- Both snapshots have an endpoint, and the two agree, or neither has it.
abbrev pub SameEndpoints : Facts → Facts → Option Endpoint → Option Endpoint → Type 0
SameEndpoints base target none none = Unit
SameEndpoints base target none (some n) = ⊥
SameEndpoints base target (some o) none = ⊥
SameEndpoints base target (some o) (some n) = SameEndpoint base target o n

module _ (base target : Facts) where
  module _ (o n : Endpoint) where
    abbrev service_id : Str
    service_id = (base.contract).service_id

    endpoint_member_drafts-SameFacts :
        (b : Bool)
        → (endpoint_member_drafts service_id o n base target b ≡ []) ↔ (
            SameFacts parameter_projection
              (parameters_by_key o.parameters)
              (parameters_by_key n.parameters)
            × SameFacts body_projection
                (bodies_by_media_type o.request_bodies)
                (bodies_by_media_type n.request_bodies)
            × SameFacts response_projection (response_groups o) (response_groups n)
            × (canonical_json (security_projection o base)
                ≡ canonical_json (security_projection n target)))
    unfolding endpoint_member_drafts parameter_facts body_facts response_facts security_drafts
    endpoint_member_drafts-SameFacts b =
        let p =
          all_fact_drafts-SameFacts (parameter_facts service_id o.endpoint_id) b
            (parameters_by_key o.parameters) (parameters_by_key n.parameters) in
        let q =
          all_fact_drafts-SameFacts (body_facts service_id o.endpoint_id) b
            (bodies_by_media_type o.request_bodies) (bodies_by_media_type n.request_bodies) in
        let r =
          all_fact_drafts-SameFacts (response_facts service_id o.endpoint_id) b (response_groups o)
            (response_groups n) in
        (
          λ h.
              let a = (append-nil _ _).0 h in
              let c = (append-nil _ _).0 a.1 in
              let d = (append-nil _ _).0 c.1 in
              (p.0 a.0, q.0 c.0, r.0 d.0, (none_unless_equal _ _ _).0 d.1),
          λ h. (append-nil _ _).1 (
            p.1 h.0,
            (append-nil _ _).1
                (q.1 h.1, (append-nil _ _).1 (r.1 h.2, (none_unless_equal _ _ _).1 h.3)),
          ),
        )

    path_names_drafts_lem :
        (id : Str)
        → (path_names_drafts base target id o n ≡ []) ↔ (
            canonical_json (arr (items (path_names o)))
            ≡ canonical_json (arr (items (path_names n))))
    unfolding path_names_drafts
    path_names_drafts_lem id = none_unless_equal _ _ _

    endpoint_drafts-SameEndpoint :
        (id : Str)
        → (endpoint_drafts base target id (some o) (some n) ≡ []) ↔ SameEndpoint base target o n
    unfolding endpoint_drafts
    endpoint_drafts-SameEndpoint id =
        elim (Bool-cases (str_eq (route_identity_key o) (route_identity_key n))) [
          | inl e ↦
              let members = endpoint_member_drafts-SameFacts (is_incomplete target.coverage) in
              rw e (
                λ h.
                    let a = (append-nil _ _).0 h in
                    let m = members.0 a.1 in
                    record {
                      route = (str_eq_iff (route_identity_key o) (route_identity_key n)).0 e;
                      names = (path_names_drafts_lem id).0 a.0;
                      parameters = m.0;
                      request_bodies = m.1;
                      responses = m.2;
                      security = m.3;
                    },
                λ s. (append-nil _ _).1 (
                  (path_names_drafts_lem id).1 s.names,
                  members.1 (s.parameters, s.request_bodies, s.responses, s.security),
                ),
              )
          | inr e ↦ rw e (
            λ h. cc h,
            λ s. cc ((str_eq_iff (route_identity_key o) (route_identity_key n)).1 s.route, e),
          )
        ]

  endpoint_drafts-SameEndpoints :
      (id : Str) (o n : Option Endpoint)
      → (endpoint_drafts base target id o n ≡ []) ↔ SameEndpoints base target o n
  endpoint_drafts-SameEndpoints id none none = (λ h. tt, λ h. unfold endpoint_drafts in refl)
  endpoint_drafts-SameEndpoints id none (some n) =
      (λ h. unfold endpoint_drafts in cc h, λ h. absurd h)
  endpoint_drafts-SameEndpoints id (some o) none =
      (λ h. unfold endpoint_drafts in cc h, λ h. absurd h)
  endpoint_drafts-SameEndpoints id (some o) (some n) = endpoint_drafts-SameEndpoint o n id

-- The comparison says nothing of endpoints exactly if the identity versions are one and each
-- endpoint id has in both snapshots an endpoint, and the two agree, or in neither.
pub all_endpoint_drafts-SameEndpoints :
    (base target : Facts)
    → (all_endpoint_drafts base target ≡ []) ↔ (
        (base.identity_version ≡ target.identity_version)
        × ((id : Str)
            → SameEndpoints base target
                (lookup id (endpoints_by_id base.endpoints))
                (lookup id (endpoints_by_id target.endpoints))))
unfolding all_endpoint_drafts same_identity_version
all_endpoint_drafts-SameEndpoints base target =
    let old = endpoints_by_id base.endpoints in
    let new = endpoints_by_id target.endpoints in
    let versions = str_eq_iff base.identity_version target.identity_version in
    let keys =
      each_key-both_keys (endpoint_drafts base target) old new
        (λ id. unfold endpoint_drafts in refl) in
    elim (Bool-cases (str_eq base.identity_version target.identity_version)) [
      | inl e ↦ rw e (
        λ h. (
          versions.0 e,
          λ id.
              (endpoint_drafts-SameEndpoints base target id (lookup id old) (lookup id new)).0
                (keys.0 h id),
        ),
        λ h. keys.1 λ id.
            (endpoint_drafts-SameEndpoints base target id (lookup id old) (lookup id new)).1
              (h.1 id),
      )
      | inr e ↦ rw e (λ h. cc h, λ h. cc (versions.1 h.0, e))
    ]
