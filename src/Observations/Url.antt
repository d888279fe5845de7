-- ===== src/Observations/Url.antt =====
-- packages/observations/src/matcher.ts: parseUrl and validOrigin, over the platform's URL class.
use api_truth.Prelude.{
  ℕ, Bool, true, false, ◌&&◌, ◌||◌, not, Option, none, some, [], ◌∷◌, ◌++◌, any, leb, ltb, ◌==◌,
  if◌then◌else◌, length,
}
use api_truth.Prelude.Text.{Str, lit, str_eq, after_prefix}
use api_truth.Prelude.Sets.{has}
use api_truth.Observations.Template.{parse_template}

-- The members of a URL that are read.
pub record Url : Type 0 where
  pub protocol : Str
  pub username : Str
  pub password : Str
  pub pathname : Str
  pub search : Str
  pub hash : Str
  pub origin : Str

-- Milliseconds from or before the epoch.
pub data Instant : Type 0 where
  since_epoch before_epoch : ℕ → Instant

unfoldable pub not_later : Instant → Instant → Bool
not_later (since_epoch a) (since_epoch b) = leb a b
not_later (since_epoch a) (before_epoch b) = a == 0 && b == 0
not_later (before_epoch a) (since_epoch b) = true
not_later (before_epoch a) (before_epoch b) = leb b a

-- `url_of`: new URL(text), `none` if it throws. `date_parse`: Date.parse(text), `none` for NaN.
pub record Platform : Type 0 where
  pub url_of : Str → Option Url
  pub date_parse : Str → Option Instant

pub record Location : Type 0 where
  pub origin : Str
  pub path : Str

abbrev is_empty_text : Str → Bool
is_empty_text [] = true
is_empty_text (c ∷ s) = false

abbrev includes : ℕ → Str → Bool
includes u s = any (λ (c : ℕ). c == u) s

-- ["http:", "https:"].includes(url.protocol), no user information
is_plain_web : Url → Bool
unfolding has
is_plain_web url =
    is_empty_text url.username
    && (is_empty_text url.password && has url.protocol (lit "http:" ∷ lit "https:" ∷ []))

pub record Split : Type 0 where
  pub front : Str
  pub back : Str

-- The longest front without the units.
split_before : (ℕ → Bool) → Str → Split
split_before stop [] = record { front = []; back = [] }
split_before stop (c ∷ s) =
    let rest = split_before stop s in
    if stop c
    then record { front = []; back = c ∷ s }
    else record { front = c ∷ rest.front; back = rest.back }

-- https?:\/\/ and what follows it
scheme : Str → Option Split
unfolding after_prefix
scheme raw = elim (after_prefix (lit "http://") raw) [
  | some rest ↦ some (record { front = lit "http://"; back = rest })
  | none ↦ elim (after_prefix (lit "https://") raw) [
    | some rest ↦ some (record { front = lit "https://"; back = rest })
    | none ↦ none
  ]
]

-- The match of /^(https?:\/\/[^/?#]+)(\/[^?#]*)?(?:\?[^#]*)?$/ on a text without "#": its first
-- group, and the second or "/".
url_parts : Str → Option Split
unfolding scheme split_before
url_parts raw = elim (scheme raw) [
  | none ↦ none
  | some s ↦
      let authority = split_before (λ c. c == b'/' || c == b'?') s.back in
      let path = (split_before (λ c. c == b'?') authority.back).front in
      if is_empty_text authority.front
      then none
      else some (record {
        front = s.front ++ authority.front;
        back = if is_empty_text path then lit "/" else path;
      })
]

is_present : {A : Type 0} → Option A → Bool
is_present none = false
is_present (some a) = true

module _ (platform : Platform) where
  -- The platform reads the text as the path that it is written with, on the origin of its front.
  location_of : Str → Split → Option Location
  unfolding str_eq is_plain_web
  location_of raw parts = elim (platform.url_of raw) [
    | none ↦ none
    | some url ↦ elim (platform.url_of parts.front) [
      | none ↦ none
      | some front ↦
          if is_plain_web url && (str_eq url.pathname parts.back && str_eq url.origin front.origin)
          then some (record { origin = url.origin; path = parts.back })
          else none
    ]
  ]

  unfoldable pub parse_url : Str → Option Location
  unfolding url_parts location_of is_present parse_template
  parse_url raw =
      let located : Option Location = elim (url_parts raw) [
        | none ↦ none
        | some parts ↦
            if is_present (parse_template parts.back)
              && (not (includes b'{' parts.back) && not (includes b'}' parts.back))
            then location_of raw parts
            else none
      ] in
      if includes b'#' raw || (includes b'\\' raw || any (λ (c : ℕ). ltb c 32 || c == 127) raw)
      then none
      else located

  unfoldable pub valid_origin : Str → Bool
  unfolding str_eq is_plain_web
  valid_origin origin =
      let same : Bool = elim (platform.url_of origin) [
        | none ↦ false
        | some url ↦
            is_plain_web url
            && (str_eq url.pathname (lit "/")
                && (is_empty_text url.search
                    && (is_empty_text url.hash && str_eq url.origin origin)))
      ] in
      leb (length origin) 255
      && (not (
            any (λ (c : ℕ). c == b'%' || (c == b'#' || (c == b'?' || (c == b'@' || c == b'\\'))))
              origin)
          && same)
