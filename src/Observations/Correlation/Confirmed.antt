-- ===== src/Observations/Correlation/Confirmed.antt =====
-- packages/observations/src/matcher.ts: what a confirmed observation is confirmed by.
use api_truth.Prelude.{
  ℕ, Bool, true, false, ◌&&◌, ◌≡◌, ◌↔◌, refl, sym, ap, ◌∙◌, some, List, [], ◌∷◌, all, any, filter,
  arith, inl, inr, Bool-cases, Option-cases, if◌then◌else◌,
}
use api_truth.Prelude.Text.{Str, lit, str_eq, str_eq_iff, str_eq_refl}
use api_truth.Json.{Json}
use api_truth.Observations.Inert.{parse_observation}
use api_truth.Observations.Url.{Location, Platform, parse_url}
use api_truth.Observations.Context.{
  RouteMapping, RoutedEndpoint, ObservationContext, ParsedObservation, ObservationResult, confirmed,
  unresolved, unsupported_route_selectors, ambiguous_endpoint, rejected, has_selectors,
  valid_context, valid_mapping,
}
use api_truth.Observations.Correlation.{
  distinct_mappings, serves, leads_to, of_endpoints, of_mappings, of_url, of_revision,
  of_observation, correlate_metadata_observation,
}

-- The observation names the attested revision, to which the environment is pinned; one mapping of
-- the valid context serves its method and URL, and one endpoint of the snapshot, without selectors,
-- is what that mapping leads to.
pub record Confirms (platform : Platform) (c : ObservationContext) (o : ParsedObservation)
    : Type 0 where
  pub pinned : (c.pin).state ≡ lit "resolved_single_revision"
  pub valid : valid_context platform c ≡ true
  pub attested : (c.attestation).revision ≡ ((c.pin).scope).revision
  pub observed : o.revision ≡ some (c.attestation).revision
  pub url : Location
  pub located : parse_url platform o.url ≡ some url
  pub valid_mappings : all (valid_mapping platform c) c.mappings ≡ true
  pub distinct : distinct_mappings c.mappings ≡ true
  pub mapping : RouteMapping
  pub only_mapping : filter (serves o url) c.mappings ≡ mapping ∷ []
  pub endpoint : RoutedEndpoint
  pub only_endpoint : filter (leads_to c o mapping) (c.snapshot).endpoints ≡ endpoint ∷ []
  pub without_selectors : has_selectors endpoint ≡ false

abbrev is_confirmed : ObservationResult → Bool
is_confirmed (confirmed e m method status) = true
is_confirmed (unresolved reason) = false
is_confirmed (rejected reason) = false

-- The endpoints' part.
record OnlyEndpoint (o : ParsedObservation) (m : RouteMapping) (l : List RoutedEndpoint)
    : Type 0 where
  endpoint : RoutedEndpoint
  only : l ≡ endpoint ∷ []
  without_selectors : has_selectors endpoint ≡ false

of_endpoints-OnlyEndpoint :
    (o : ParsedObservation) (m : RouteMapping) (l : List RoutedEndpoint)
    → is_confirmed (of_endpoints o m l) ≡ true
    → OnlyEndpoint o m l
unfolding of_endpoints
of_endpoints-OnlyEndpoint o m [] h = cc h
of_endpoints-OnlyEndpoint o m (e ∷ []) h = record {
  endpoint = e;
  only = refl;
  without_selectors = elim (Bool-cases (has_selectors e)) [
    | inl s ↦ absurd (ground (arith, s, h))
    | inr s ↦ s
  ];
}
of_endpoints-OnlyEndpoint o m (e ∷ f ∷ l) h = absurd (never (any has_selectors (e ∷ f ∷ l)) h)
  where
    never :
        (b : Bool)
        → is_confirmed
            (if b then unresolved unsupported_route_selectors else unresolved ambiguous_endpoint)
          ≡ true
        → ⊥
    never true k = cc k
    never false k = cc k

record OnlyMapping (c : ObservationContext) (o : ParsedObservation) (l : List RouteMapping)
    : Type 0 where
  mapping : RouteMapping
  only : l ≡ mapping ∷ []
  endpoints : OnlyEndpoint o mapping (filter (leads_to c o mapping) (c.snapshot).endpoints)

of_mappings-OnlyMapping :
    (c : ObservationContext) (o : ParsedObservation) (l : List RouteMapping)
    → is_confirmed (of_mappings c o l) ≡ true
    → OnlyMapping c o l
unfolding of_mappings
of_mappings-OnlyMapping c o [] h = cc h
of_mappings-OnlyMapping c o (m ∷ []) h = record {
  mapping = m;
  only = refl;
  endpoints = of_endpoints-OnlyEndpoint o m _ h;
}
of_mappings-OnlyMapping c o (m ∷ n ∷ l) h = cc h

module _ (platform : Platform) (c : ObservationContext) (o : ParsedObservation) where
  record Located : Type 0 where
    url : Location
    located : parse_url platform o.url ≡ some url
    mappings : all (valid_mapping platform c) c.mappings ≡ true
    distinct : distinct_mappings c.mappings ≡ true
    only : OnlyMapping c o (filter (serves o url) c.mappings)

  both : (p q : Bool) → (p && q) ≡ true → (p ≡ true) × (q ≡ true)
  both p q h = ground (arith, h)

  of_url-Located : is_confirmed (of_url platform c o) ≡ true → Located
  unfolding of_url
  of_url-Located h = elim (Option-cases (parse_url platform o.url)) [
    | inl e ↦ absurd (ground (arith, e, h))
    | inr (url, e) ↦
        elim (Bool-cases
          (all (valid_mapping platform c) c.mappings && distinct_mappings c.mappings)) [
            | inl f ↦
                let valid =
                  both (all (valid_mapping platform c) c.mappings) (distinct_mappings c.mappings)
                    f in
                record {
                  url = url;
                  located = e;
                  mappings = valid.0;
                  distinct = valid.1;
                  only = of_mappings-OnlyMapping c o _ (ground (arith, e, f, h));
                }
            | inr f ↦ absurd (ground (arith, e, f, h))
          ]
  ]

  of_revision-observed :
      is_confirmed (of_revision platform c o) ≡ true
      → (o.revision ≡ some (c.attestation).revision) × Located
  of_revision-observed h = elim (Option-cases o.revision) [
    | inl e ↦ absurd (unfold of_revision in ground (arith, e, h))
    | inr (r, e) ↦ elim (Bool-cases (str_eq r (c.attestation).revision)) [
      | inl f ↦ (
        e ∙ ap some ((str_eq_iff r (c.attestation).revision).0 f),
        of_url-Located (unfold of_revision in ground (arith, e, f, h)),
      )
      | inr f ↦ absurd (unfold of_revision in ground (arith, e, f, h))
    ]
  ]

  -- The guards before the revision, all of which let the observation through.
  record Guards : Type 0 where
    valid : valid_context platform c ≡ true
    pinned : (c.pin).state ≡ lit "resolved_single_revision"
    attested : (c.attestation).revision ≡ ((c.pin).scope).revision
    rest : is_confirmed (of_revision platform c o) ≡ true

  correlate-Guards : is_confirmed (of_observation platform c o) ≡ true → Guards
  correlate-Guards h = elim (Bool-cases (valid_context platform c)) [
    | inr e ↦ absurd (unfold of_observation in ground (arith, e, h))
    | inl e ↦ elim (Bool-cases (str_eq (c.pin).state (lit "resolved_single_revision"))) [
      | inr f ↦ absurd (unfold of_observation in ground (arith, e, f, h))
      | inl f ↦ elim (Bool-cases (str_eq (c.attestation).revision ((c.pin).scope).revision)) [
        | inr g ↦ absurd (unfold of_observation in ground (arith, e, f, g, h))
        | inl g ↦ record {
          valid = e;
          pinned = (str_eq_iff (c.pin).state (lit "resolved_single_revision")).0 f;
          attested = (str_eq_iff (c.attestation).revision ((c.pin).scope).revision).0 g;
          rest = unfold of_observation in ground (arith, e, f, g, h);
        }
      ]
    ]
  ]

  correlate-Confirms : is_confirmed (of_observation platform c o) ≡ true → Confirms platform c o
  correlate-Confirms h =
      let g = correlate-Guards h in
      let (observed, found) = of_revision-observed g.rest in
      record {
        pinned = g.pinned;
        valid = g.valid;
        attested = g.attested;
        observed = observed;
        url = found.url;
        located = found.located;
        valid_mappings = found.mappings;
        distinct = found.distinct;
        mapping = (found.only).mapping;
        only_mapping = (found.only).only;
        endpoint = ((found.only).endpoints).endpoint;
        only_endpoint = ((found.only).endpoints).only;
        without_selectors = ((found.only).endpoints).without_selectors;
      }

  result_of : Confirms platform c o → ObservationResult
  result_of k = confirmed (k.endpoint).endpoint_id (k.mapping).mapping_id o.method o.status_code

  only_endpoint_result :
      (m : RouteMapping) (e : RoutedEndpoint)
      → has_selectors e ≡ false
      → of_endpoints o m (e ∷ []) ≡ confirmed e.endpoint_id m.mapping_id o.method o.status_code
  unfolding of_endpoints
  only_endpoint_result m e h = ground (arith, h)

  url_step :
      (url : Location)
      → parse_url platform o.url ≡ some url
      → all (valid_mapping platform c) c.mappings ≡ true
      → distinct_mappings c.mappings ≡ true
      → of_url platform c o ≡ of_mappings c o (filter (serves o url) c.mappings)
  unfolding of_url
  url_step url h k l = ground (arith, h, k, l)

  mapping_step :
      (m : RouteMapping)
      → of_mappings c o (m ∷ []) ≡ of_endpoints o m (filter (leads_to c o m) (c.snapshot).endpoints)
  unfolding of_mappings
  mapping_step m = refl

  of_url-Confirms : (k : Confirms platform c o) → of_url platform c o ≡ result_of k
  unfolding result_of
  of_url-Confirms k =
      url_step k.url k.located k.valid_mappings k.distinct
      ∙ (ap (of_mappings c o) k.only_mapping
          ∙ (mapping_step k.mapping
              ∙ (ap (of_endpoints o k.mapping) k.only_endpoint
                  ∙ only_endpoint_result k.mapping k.endpoint k.without_selectors)))

  revision_step :
      o.revision ≡ some (c.attestation).revision → of_revision platform c o ≡ of_url platform c o
  unfolding of_revision
  revision_step h = ground (arith, h, str_eq_refl (c.attestation).revision)

  guard_step :
      valid_context platform c ≡ true
      → (c.pin).state ≡ lit "resolved_single_revision"
      → (c.attestation).revision ≡ ((c.pin).scope).revision
      → of_observation platform c o ≡ of_revision platform c o
  unfolding of_observation
  guard_step h p a = ground (
    arith,
    h,
    (str_eq_iff (c.pin).state (lit "resolved_single_revision")).1 p,
    (str_eq_iff (c.attestation).revision ((c.pin).scope).revision).1 a,
  )

  Confirms-correlate : (k : Confirms platform c o) → of_observation platform c o ≡ result_of k
  Confirms-correlate k =
      guard_step k.valid k.pinned k.attested ∙ (revision_step k.observed ∙ of_url-Confirms k)

-- The raw value is an observation that the context confirms.
pub record Observed (platform : Platform) (c : ObservationContext) (raw : Json) : Type 0 where
  pub observation : ParsedObservation
  pub parsed : parse_observation raw ≡ some observation
  pub confirms : Confirms platform c observation

module _ (platform : Platform) (c : ObservationContext) (raw : Json) where
  parsed_step :
      (o : ParsedObservation)
      → parse_observation raw ≡ some o
      → correlate_metadata_observation platform raw c ≡ of_observation platform c o
  unfolding correlate_metadata_observation
  parsed_step o h = ground (arith, h)

  correlate-Observed :
      is_confirmed (correlate_metadata_observation platform raw c) ≡ true → Observed platform c raw
  correlate-Observed h = elim (Option-cases (parse_observation raw)) [
    | inl e ↦ absurd (unfold correlate_metadata_observation in ground (arith, e, h))
    | inr (o, e) ↦ record {
      observation = o;
      parsed = e;
      confirms = correlate-Confirms platform c o (ap is_confirmed (sym (parsed_step o e)) ∙ h);
    }
  ]

-- A raw value is confirmed exactly if it parses as an observation, the environment is pinned to the
-- revision that it names and that is attested, and in the valid context one mapping serves it and
-- leads to one endpoint of the snapshot, which has no selectors; the result names that endpoint and
-- that mapping, and the observation's method and status code.
pub correlate_metadata_observation-Observed :
    (platform : Platform) (c : ObservationContext) (raw : Json)
    (endpoint_id mapping_id method : Str) (status_code : ℕ)
    → (correlate_metadata_observation platform raw c
        ≡ confirmed endpoint_id mapping_id method status_code)
      ↔ ((k : Observed platform c raw) × (confirmed
              ((k.confirms).endpoint).endpoint_id
              ((k.confirms).mapping).mapping_id
              (k.observation).method
              (k.observation).status_code
            ≡ confirmed endpoint_id mapping_id method status_code))
unfolding result_of
correlate_metadata_observation-Observed platform c raw endpoint_id mapping_id method status_code = (
  λ h.
      let k = correlate-Observed platform c raw (ap is_confirmed h) in
      (
        k,
        sym (
              parsed_step platform c raw k.observation k.parsed
              ∙ Confirms-correlate platform c k.observation k.confirms)
            ∙ h,
      ),
  λ h.
      parsed_step platform c raw (h.0).observation (h.0).parsed
      ∙ (Confirms-correlate platform c (h.0).observation (h.0).confirms ∙ h.1),
)
