-- ===== src/Updates/Differences/Itself.antt =====
-- packages/updates/src/differences.ts: the comparison of a snapshot with itself.
use api_truth.Prelude.{Bool, true, false, ◌&&◌, [], ◌∷◌, all, if◌then◌else◌}
use api_truth.Prelude.Text.{Str, lit}
use api_truth.Prelude.Sets.{has}
use api_truth.Json.{Json, Items, Fields, str, arr, obj, nil, cons, end, field}
use api_truth.Updates.Differences.Facts.{
  Parameter, RequestBody, Content, Header, Response, Endpoint, Facts,
}

unfoldable pub all_strings : Items → Bool
all_strings nil = true
all_strings (cons (str s) xs) = all_strings xs
all_strings (cons x xs) = false

unfoldable pub keyword_fits : Str → Json → Bool
unfolding has all_strings
keyword_fits k (arr xs) = if has k (lit "type" ∷ lit "required" ∷ []) then all_strings xs else true
keyword_fits k v = true

-- Every array that stands under `type` or `required`, at any depth, holds strings.
unfoldable mutual
  unfolding keyword_fits

  pub has_string_keywords : Json → Bool
  has_string_keywords (arr xs) = items_fit xs
  has_string_keywords (obj fs) = fields_fit fs
  has_string_keywords v = true

  pub items_fit : Items → Bool
  items_fit nil = true
  items_fit (cons x xs) = has_string_keywords x && items_fit xs

  pub fields_fit : Fields → Bool
  fields_fit end = true
  fields_fit (field k v fs) = keyword_fits k v && (has_string_keywords v && fields_fit fs)

abbrev response_fits : Response → Bool
response_fits r =
    all (λ (c : Content). has_string_keywords c.schema) r.content
    && all (λ (h : Header). has_string_keywords h.schema) r.headers

abbrev endpoint_fits : Endpoint → Bool
endpoint_fits e =
    all (λ (p : Parameter). has_string_keywords p.schema) e.parameters
    && (all (λ (b : RequestBody). has_string_keywords b.schema) e.request_bodies
        && all response_fits e.responses)

-- So it is in every schema of the snapshot.
abbrev pub keywords_hold_strings : Facts → Bool
keywords_hold_strings s =
    all endpoint_fits s.endpoints && all (λ (c : Str × Json). has_string_keywords c.1) s.schemas
