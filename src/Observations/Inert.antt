-- ===== src/Observations/Inert.antt =====
-- packages/observations/src/matcher.ts: inertJson and parseObservation. A proxy, an accessor, a
-- foreign prototype and an object that occurs twice are `exotic`.
pub mod Bounds
use api_truth.Prelude.{ℕ, suc, ◌+◌, ◌&&◌, Option, none, some, ◌∷◌, leb, ltb, if◌then◌else◌, length}
use api_truth.Prelude.Text.{Str, lit}
use api_truth.Prelude.Sets.{has}
use api_truth.Json.{
  Json, null, exotic, boolean, number, str, arr, obj, Items, nil, cons, Fields, end, field, get,
}
use api_truth.Orchestration.Canonical.{◌>>=◌}
use api_truth.Updates.Utf8.{utf8}
use api_truth.Observations.Context.{ParsedObservation, methods, is_token}

-- The nodes and the bytes so far.
pub record Spent : Type 0 where
  pub nodes : ℕ
  pub bytes : ℕ

-- The text counts with its bytes; `none` if it is too long, or all texts are.
unfoldable pub add_text : Str → Spent → Option Spent
unfolding utf8
add_text value s =
    let size = length (utf8 value) in
    if leb (length value) 4096 && (leb size 4096 && leb (s.bytes + size) 65536)
    then some (record { nodes = s.nodes; bytes = s.bytes + size })
    else none

-- ++nodes > maxNodes || depth > maxDepth
unfoldable pub enter : ℕ → Spent → Option Spent
enter depth s =
    if leb (suc s.nodes) 512 && leb depth 7
    then some (record { nodes = suc s.nodes; bytes = s.bytes })
    else none

unfoldable pub item_count : Items → ℕ
item_count nil = 0
item_count (cons x xs) = suc (item_count xs)

unfoldable pub field_count : Fields → ℕ
field_count end = 0
field_count (field k v fs) = suc (field_count fs)

-- A text with as many bytes as an index below 1,000 has digits.
unfoldable pub index_text : ℕ → Str
index_text i = if ltb i 10 then lit "0" else if ltb i 100 then lit "00" else lit "000"

-- At most so many members.
unfoldable pub within : ℕ → Spent → Option Spent
within count s = if leb count 128 then some s else none

-- The walk of a value at a depth, `none` for false. An array's keys are its indices and "length".
unfoldable mutual
  unfolding add_text enter item_count field_count index_text within

  pub walk : Json → ℕ → Spent → Option Spent
  walk null depth s = enter depth s
  walk exotic depth s = none
  walk (boolean b) depth s = enter depth s
  walk (number n) depth s = if n.finite then enter depth s else none
  walk (str t) depth s = do entered ← enter depth s; add_text t entered
  walk (arr xs) depth s = do
    entered ← enter depth s
    bounded ← within (item_count xs) entered
    walked ← walk_items xs 0 (suc depth) bounded
    add_text (lit "length") walked
  walk (obj fs) depth s = do
    entered ← enter depth s
    bounded ← within (field_count fs) entered
    walk_fields fs (suc depth) bounded

  pub walk_items : Items → ℕ → ℕ → Spent → Option Spent
  walk_items nil index depth s = some s
  walk_items (cons x xs) index depth s = do
    named ← add_text (index_text index) s
    walked ← walk x depth named
    walk_items xs (suc index) depth walked

  pub walk_fields : Fields → ℕ → Spent → Option Spent
  walk_fields end depth s = some s
  walk_fields (field k v fs) depth s = do
    named ← add_text k s
    walked ← walk v depth named
    walk_fields fs depth walked

-- The members, if the root is an inert object.
unfoldable pub inert_json : Json → Option Fields
unfolding walk
inert_json (obj fs) = do spent ← walk (obj fs) 0 (record { nodes = 0; bytes = 0 }); some fs
inert_json v = none

url_member : Fields → Option Str
unfolding get utf8
url_member fs = elim (get (lit "url") fs) [
  | some (str (c ∷ u)) ↦ if leb (length (utf8 (c ∷ u))) 2048 then some (c ∷ u) else none
  | _ ↦ none
]

method_member : Fields → Option Str
unfolding get has
method_member fs = elim (get (lit "method") fs) [
  | some (str m) ↦ if has m methods then some m else none
  | _ ↦ none
]

status_member : Fields → Option ℕ
unfolding get
status_member fs = elim (get (lit "statusCode") fs) [
  | some (number n) ↦ elim n.natural [
    | none ↦ none
    | some code ↦ if leb 100 code && leb code 599 then some code else none
  ]
  | _ ↦ none
]

-- The outer `none` is a refusal.
revision_member : Fields → Option (Option Str)
unfolding get is_token
revision_member fs = elim (get (lit "revision") fs) [
  | none ↦ some none
  | some (str r) ↦ if is_token r then some (some r) else none
  | _ ↦ none
]

unfoldable pub parse_observation : Json → Option ParsedObservation
unfolding inert_json url_member method_member status_member revision_member
parse_observation raw = do
  fs ← inert_json raw
  url ← url_member fs
  method ← method_member fs
  status_code ← status_member fs
  revision ← revision_member fs
  some (record { url = url; method = method; status_code = status_code; revision = revision })
