-- ===== src/Observations/Correlation.antt =====
-- packages/observations/src/matcher.ts: correlateMetadataObservation.
pub mod Confirmed
use api_truth.Prelude.{
  ℕ, Bool, true, false, ◌&&◌, not, Option, none, some, List, [], ◌∷◌, map, all, any, filter, ◌==◌,
  if◌then◌else◌, length,
}
use api_truth.Prelude.Text.{Str, lit, str_eq}
use api_truth.Prelude.Sets.{add_all}
use api_truth.Json.{Json}
use api_truth.Observations.Inert.{parse_observation}
use api_truth.Observations.Template.{parse_template, shape, match_path}
use api_truth.Observations.Url.{Location, Platform, parse_url}
use api_truth.Observations.Context.{
  RouteMapping, RoutedEndpoint, ObservationContext, ParsedObservation, environment_unresolved,
  revision_unknown, revision_mismatch, invalid_url, no_mapping, ambiguous_mapping, no_endpoint,
  ambiguous_endpoint, unsupported_route_selectors, invalid_observation, invalid_context,
  invalid_mapping, ObservationResult, confirmed, unresolved, rejected, has_selectors, valid_context,
  valid_mapping,
}

-- new Set(mappings.map((mapping) => mapping.mappingId)).size === mappings.length
unfoldable pub distinct_mappings : List RouteMapping → Bool
unfolding add_all
distinct_mappings l = length (add_all (map (λ (m : RouteMapping). m.mapping_id) l) []) == length l

-- The mapping is for the observed method, origin and path.
unfoldable pub serves : ParsedObservation → Location → RouteMapping → Bool
unfolding str_eq parse_template match_path
serves o url m =
    str_eq m.method o.method
    && (str_eq m.public_origin url.origin && elim (parse_template m.public_path_template) [
      | none ↦ false
      | some parts ↦ match_path url.path parts
    ])

-- shape(parseTemplate(mapping.applicationPathTemplate))
application_shape : RouteMapping → Str
unfolding parse_template shape
application_shape m = elim (parse_template m.application_path_template) [
  | none ↦ []
  | some parts ↦ shape parts
]

-- The endpoint is what the mapping leads to.
unfoldable pub leads_to :
    ObservationContext → ParsedObservation → RouteMapping → RoutedEndpoint → Bool
unfolding str_eq application_shape
leads_to c o m e =
    str_eq e.method o.method
    && (str_eq e.service_id ((c.pin).scope).service_id
        && str_eq e.normalized_path_shape (application_shape m))

-- The candidates among the endpoints, for the only mapping.
unfoldable pub of_endpoints :
    ParsedObservation → RouteMapping → List RoutedEndpoint → ObservationResult
unfolding has_selectors
of_endpoints o m [] = unresolved no_endpoint
of_endpoints o m (e ∷ []) =
    if has_selectors e
    then unresolved unsupported_route_selectors
    else confirmed e.endpoint_id m.mapping_id o.method o.status_code
of_endpoints o m (e ∷ f ∷ l) =
    if any has_selectors (e ∷ f ∷ l)
    then unresolved unsupported_route_selectors
    else unresolved ambiguous_endpoint

-- The mappings that serve the observation.
unfoldable pub of_mappings :
    ObservationContext → ParsedObservation → List RouteMapping → ObservationResult
unfolding of_endpoints leads_to
of_mappings c o [] = unresolved no_mapping
of_mappings c o (m ∷ []) = of_endpoints o m (filter (leads_to c o m) (c.snapshot).endpoints)
of_mappings c o (m ∷ n ∷ l) = unresolved ambiguous_mapping

module _ (platform : Platform) where
  -- From the URL on.
  unfoldable pub of_url : ObservationContext → ParsedObservation → ObservationResult
  unfolding parse_url valid_mapping distinct_mappings of_mappings serves
  of_url c o = elim (parse_url platform o.url) [
    | none ↦ unresolved invalid_url
    | some url ↦
        if all (valid_mapping platform c) c.mappings && distinct_mappings c.mappings
        then of_mappings c o (filter (serves o url) c.mappings)
        else rejected invalid_mapping
  ]

  unfoldable pub of_revision : ObservationContext → ParsedObservation → ObservationResult
  unfolding of_url str_eq
  of_revision c o = elim o.revision [
    | none ↦ unresolved revision_unknown
    | some revision ↦
        if str_eq revision (c.attestation).revision
        then of_url c o
        else unresolved revision_mismatch
  ]

  -- An observation that could be parsed.
  unfoldable pub of_observation : ObservationContext → ParsedObservation → ObservationResult
  unfolding valid_context of_revision str_eq
  of_observation c o =
      if not (valid_context platform c)
      then rejected invalid_context
      else if not (str_eq (c.pin).state (lit "resolved_single_revision"))
      then unresolved environment_unresolved
      else if not (str_eq (c.attestation).revision ((c.pin).scope).revision)
      then rejected invalid_context
      else of_revision c o

  unfoldable pub correlate_metadata_observation : Json → ObservationContext → ObservationResult
  unfolding parse_observation of_observation
  correlate_metadata_observation raw c = elim (parse_observation raw) [
    | none ↦ rejected invalid_observation
    | some o ↦ of_observation c o
  ]
