-- ===== src/Observations/Context.antt =====
-- packages/observations/src/types.ts and matcher.ts: an observation's context, and when it is valid.
-- The shapes, which the source tests too, are in the types.
use api_truth.Prelude.{
  ℕ, Bool, true, false, ◌&&◌, ◌||◌, not, Option, none, some, List, [], ◌∷◌, all, any, leb, ◌==◌,
  if◌then◌else◌, length,
}
use api_truth.Prelude.Text.{Str, lit, str_eq}
use api_truth.Prelude.Sets.{has}
use api_truth.Observations.Template.{parse_template}
use api_truth.Observations.Url.{not_later, Platform, valid_origin}

-- What a pin and a mapping have in common.
pub record Scope : Type 0 where
  pub tenant_id : Str
  pub service_id : Str
  pub repository_id : Str
  pub environment : Str
  pub snapshot_id : Str
  pub revision : Str
  pub config_fingerprint : Str
  pub checkpoint_version : Str

pub record Pin : Type 0 where
  pub state : Str
  pub scope : Scope

pub record RouteMapping : Type 0 where
  pub mapping_id : Str
  pub scope : Scope
  pub public_origin : Str
  pub public_path_template : Str
  pub application_path_template : Str
  pub method : Str
  pub routing_evidence_ids : List Str

pub record Attestation : Type 0 where
  pub revision : Str
  pub source_id : Str
  pub source_version : Str
  pub window_start : Str
  pub window_end : Str

-- `selectors` holds the length of each array of the identity's selectors.
pub record RoutedEndpoint : Type 0 where
  pub endpoint_id : Str
  pub method : Str
  pub service_id : Str
  pub normalized_path_shape : Str
  pub selectors : List ℕ

-- The members of the snapshot that are read.
pub record PinnedSnapshot : Type 0 where
  pub snapshot_id : Str
  pub service_id : Str
  pub service_repository_id : Str
  pub source_repository_id : Str
  pub immutable_revision : Str
  pub config_fingerprint : Str
  pub endpoints : List RoutedEndpoint

pub record ObservationContext : Type 0 where
  pub pin : Pin
  pub attestation : Attestation
  pub snapshot : PinnedSnapshot
  pub mappings : List RouteMapping

pub record ParsedObservation : Type 0 where
  pub url : Str
  pub method : Str
  pub status_code : ℕ
  pub revision : Option Str

pub data UnresolvedReason : Type 0 where
  environment_unresolved revision_unknown revision_mismatch invalid_url : UnresolvedReason
  no_mapping ambiguous_mapping no_endpoint ambiguous_endpoint : UnresolvedReason
  unsupported_route_selectors : UnresolvedReason

pub data RejectReason : Type 0 where
  invalid_observation invalid_context invalid_mapping : RejectReason

-- `unresolved` also carries the observation's method and status code.
pub data ObservationResult : Type 0 where
  confirmed : (endpoint_id mapping_id method : Str) (status_code : ℕ) → ObservationResult
  unresolved : UnresolvedReason → ObservationResult
  rejected : RejectReason → ObservationResult

abbrev is_alphanumeric : ℕ → Bool
is_alphanumeric c =
    leb b'A' c && leb c b'Z' || (leb b'a' c && leb c b'z' || leb b'0' c && leb c b'9')

abbrev is_token_unit : ℕ → Bool
is_token_unit c = is_alphanumeric c || (c == b'.' || (c == b'_' || (c == b':' || c == b'-')))

-- token, /^[A-Za-z0-9][A-Za-z0-9._:-]{0,127}$/
unfoldable pub is_token : Str → Bool
is_token [] = false
is_token (c ∷ s) = is_alphanumeric c && (all is_token_unit s && leb (length s) 127)

abbrev is_digit : ℕ → Bool
is_digit c = leb b'0' c && leb c b'9'

-- (?:\.\d{1,3})?Z$
ends_timestamp : Str → Bool
ends_timestamp (a ∷ []) = a == b'Z'
ends_timestamp (a ∷ b ∷ c ∷ []) = a == b'.' && (is_digit b && c == b'Z')
ends_timestamp (a ∷ b ∷ c ∷ d ∷ []) = a == b'.' && (is_digit b && (is_digit c && d == b'Z'))
ends_timestamp (a ∷ b ∷ c ∷ d ∷ e ∷ []) =
    a == b'.' && (is_digit b && (is_digit c && (is_digit d && e == b'Z')))
ends_timestamp s = false

-- A "d" of the pattern is a digit, another unit itself; what follows is the end of a timestamp.
fits_timestamp : Str → Str → Bool
unfolding ends_timestamp
fits_timestamp [] s = ends_timestamp s
fits_timestamp (p ∷ pattern) [] = false
fits_timestamp (p ∷ pattern) (c ∷ s) =
    (if p == b'd' then is_digit c else p == c) && fits_timestamp pattern s

-- utcTimestamp
unfoldable pub is_utc_timestamp : Str → Bool
unfolding fits_timestamp
is_utc_timestamp s = fits_timestamp (lit "dddd-dd-ddTdd:dd:dd") s

unfoldable pub scope_texts : Scope → List Str
scope_texts s =
    s.tenant_id ∷ s.service_id ∷ s.repository_id ∷ s.environment ∷ s.snapshot_id ∷ s.revision
    ∷ s.config_fingerprint ∷ s.checkpoint_version ∷ []

-- Texts are the same, one by one.
unfoldable pub same_texts : List Str → List Str → Bool
unfolding str_eq
same_texts [] [] = true
same_texts [] (t ∷ m) = false
same_texts (s ∷ l) [] = false
same_texts (s ∷ l) (t ∷ m) = str_eq s t && same_texts l m

abbrev pub methods : List Str
methods =
    lit "GET"
    ∷ lit "POST"
    ∷ lit "PUT"
    ∷ lit "PATCH"
    ∷ lit "DELETE"
    ∷ lit "HEAD"
    ∷ lit "OPTIONS"
    ∷ []

unfoldable pub is_present {ℓ} : {A : Type ℓ} → Option A → Bool
is_present none = false
is_present (some a) = true

-- Object.values(selectors).some((value) => value.length > 0)
unfoldable pub has_selectors : RoutedEndpoint → Bool
has_selectors e = any (λ (n : ℕ). not (n == 0)) e.selectors

-- The snapshot is the pin's.
unfoldable pub pins_snapshot : Scope → PinnedSnapshot → Bool
unfolding str_eq
pins_snapshot pin s =
    str_eq s.snapshot_id pin.snapshot_id
    && (str_eq s.service_id pin.service_id
        && (str_eq s.service_repository_id pin.repository_id
            && (str_eq s.source_repository_id pin.repository_id
                && (str_eq s.immutable_revision pin.revision
                    && str_eq s.config_fingerprint pin.config_fingerprint))))

-- `platform`: the URL class, and Date.parse.
module _ (platform : Platform) where
  -- Number.isFinite(Date.parse(start)) && Date.parse(start) <= Date.parse(end)
  in_order : Str → Str → Bool
  unfolding not_later
  in_order start end = elim (platform.date_parse start) [
    | none ↦ false
    | some a ↦ elim (platform.date_parse end) [ none ↦ false | some b ↦ not_later a b ]
  ]

  unfoldable pub valid_context : ObservationContext → Bool
  unfolding is_token is_utc_timestamp in_order scope_texts pins_snapshot
  valid_context c =
      leb (length c.mappings) 32
      && (all is_token (
            (c.attestation).revision
            ∷ (c.attestation).source_id
            ∷ (c.attestation).source_version
            ∷ [])
          && (is_utc_timestamp (c.attestation).window_start
              && (is_utc_timestamp (c.attestation).window_end
                  && (in_order (c.attestation).window_start (c.attestation).window_end
                      && (all is_token (scope_texts (c.pin).scope)
                          && (pins_snapshot (c.pin).scope c.snapshot
                              && leb (length (c.snapshot).endpoints) 4096))))))

  unfoldable pub valid_mapping : ObservationContext → RouteMapping → Bool
  unfolding is_token scope_texts same_texts is_present parse_template valid_origin has
  valid_mapping c m =
      is_present (parse_template m.public_path_template)
      && (is_present (parse_template m.application_path_template)
          && (valid_origin platform m.public_origin
              && (all is_token (m.mapping_id ∷ scope_texts m.scope)
                  && (same_texts (scope_texts m.scope) (scope_texts (c.pin).scope)
                      && (has m.method methods
                          && (not (length m.routing_evidence_ids == 0)
                              && (leb (length m.routing_evidence_ids) 16
                                  && all is_token m.routing_evidence_ids)))))))
