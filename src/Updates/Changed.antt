-- ===== src/Updates/Changed.antt =====
-- packages/updates/src/planner.ts: changedRecords, endpointWithoutSourceClosure, ownedSourcePathIsInvalid,
-- and what the planner's loop over the changed paths gathers of them.
pub mod Owned
use api_truth.Prelude.{
  ℕ, zero, suc, ◌+◌, Bool, true, false, ◌&&◌, ◌||◌, not, Option, none, some, List, [], ◌∷◌, ◌++◌,
  map, all, any, filter, find, leb, ltb, ◌==◌, if◌then◌else◌, length,
}
use api_truth.Prelude.Text.{Str, lit, str_eq, after_prefix, slice_from, split}
use api_truth.Prelude.Sets.{has, add, add_all, lookup}
use api_truth.Prelude.Sorting.{sort}
use api_truth.Orchestration.Canonical.{same_text}
use api_truth.Json.{Json, obj, str, field, end}
use api_truth.Updates.Utf8.{utf8_before, is_canonical_string_set}
use api_truth.Updates.Snapshot.{AnalysisKey, ContractSnapshot, Evidence, SchemaComponent}
use api_truth.Updates.Ownership.{
  OwnershipRoute, dependency_endpoint, Ownership, OwnershipIndex, owners_of,
}
use api_truth.Updates.Plan.{
  FallbackReason, adapter_incremental_targets_unsupported, prior_coverage_incomplete,
  changed_paths_incomplete, changed_paths_digest_mismatch, changed_path_unindexed,
  dependency_index_incomplete, analyzer_changed, config_changed, ir_changed, identity_changed, rank,
  reuse_base_snapshot, analyze_full_service, Service, Content, UpdatePlan, analyzer_json,
  texts_agree, inside_root, plan_id_of, validate_plan, is_empty,
}

-- /[A-Za-z0-9_@+.-]/
abbrev is_path_unit : ℕ → Bool
is_path_unit c =
    (leb b'A' c && leb c b'Z')
    || ((leb b'a' c && leb c b'z')
        || ((leb b'0' c && leb c b'9')
            || (c == b'_' || (c == b'@' || (c == b'+' || (c == b'.' || c == b'-'))))))

is_segment : Str → Bool
unfolding str_eq
is_segment [] = false
is_segment (c ∷ s) =
    all is_path_unit (c ∷ s) && not (str_eq (c ∷ s) (lit ".")) && not (str_eq (c ∷ s) (lit ".."))

unfoldable pub is_normalized_service_path : Str → Bool
unfolding is_segment split str_eq
is_normalized_service_path path = str_eq path (lit ".") || all is_segment (split b'/' path)

abbrev normalized : Option Str → Bool
normalized none = false
normalized (some path) = is_normalized_service_path path

unfoldable pub service_relative_path : Str → Str → Str
unfolding str_eq slice_from
service_relative_path project_path service_root =
    if str_eq service_root (lit ".")
    then project_path
    else if str_eq project_path service_root
    then lit "."
    else slice_from (length service_root + 1) project_path

pub record Records : Type 0 where
  pub affected_endpoint_ids : List Str
  pub indexed : Bool
  pub incomplete : Bool

module _ (snapshot : ContractSnapshot) (index : OwnershipIndex) where
  unfoldable pub evidence_owners : Str → List Str
  unfolding owners_of
  evidence_owners id = owners_of index.evidence_owners id

  unfoldable pub schema_owners : Str → List Str
  unfolding owners_of
  schema_owners id = owners_of index.schema_owners id

  is_orphan_evidence : Evidence → Bool
  unfolding evidence_owners is_normalized_service_path
  is_orphan_evidence e = normalized e.path && is_empty (evidence_owners e.evidence_id)

  -- snapshot.evidence.find(...)?.location.path
  path_of : Str → Option Str
  unfolding str_eq
  path_of id = elim (find (λ e. str_eq e.evidence_id id) snapshot.evidence) [
    | none ↦ none
    | some e ↦ e.path
  ]

  is_orphan_schema : SchemaComponent → Bool
  unfolding path_of schema_owners is_normalized_service_path
  is_orphan_schema c =
      any (λ id. normalized (path_of id)) c.evidence_ids && is_empty (schema_owners c.schema_id)

  unfoldable pub whole_service : Records
  unfolding is_orphan_evidence is_orphan_schema
  whole_service = record {
    affected_endpoint_ids = index.endpoint_ids;
    indexed = true;
    incomplete =
        any is_orphan_evidence snapshot.evidence
        || any (λ (s : Str × SchemaComponent). is_orphan_schema s.1) snapshot.schemas;
  }

  abbrev pub on_path : Str → Evidence → Bool
  on_path path e = elim e.path [
    | none ↦ false
    | some p ↦ str_eq p path && is_normalized_service_path p
  ]

  -- An owner other than the evidence's own endpoint, that owns it by itself.
  foreign_owner : Str → Str × List OwnershipRoute → Bool
  unfolding str_eq
  foreign_owner scoped (endpoint_id, routes) =
      not (str_eq endpoint_id scoped)
      && any (λ r. elim r [ dependency_endpoint ↦ false | _ ↦ true ]) routes

  scope_conflict : Evidence → Bool
  unfolding foreign_owner lookup
  scope_conflict e = elim e.scope_endpoint_id [
    | none ↦ false
    | some scoped ↦ elim (lookup e.evidence_id index.evidence_owner_routes) [
      | none ↦ false
      | some routes ↦ any (foreign_owner scoped) routes
    ]
  ]

  unfoldable pub evidence_affected : List Evidence → List Str → List Str
  unfolding evidence_owners add_all
  evidence_affected [] out = out
  evidence_affected (e ∷ es) out =
      evidence_affected es (add_all (evidence_owners e.evidence_id) out)

  unfoldable pub schemas_affected : List (Str × SchemaComponent) → List Str → List Str
  unfolding schema_owners add_all
  schemas_affected [] out = out
  schemas_affected ((key, c) ∷ ss) out =
      schemas_affected ss (add_all (schema_owners c.schema_id) out)

  abbrev pub schema_on_path : List Str → Str × SchemaComponent → Bool
  schema_on_path ids s = any (λ id. has id ids) (s.1).evidence_ids

  unfoldable pub one_file : Str → Records
  unfolding evidence_affected schemas_affected scope_conflict is_normalized_service_path str_eq has
  one_file path =
      let found = filter (on_path path) snapshot.evidence in
      let schemas =
        filter (schema_on_path (map (λ (e : Evidence). e.evidence_id) found)) snapshot.schemas in
      record {
        affected_endpoint_ids = schemas_affected schemas (evidence_affected found []);
        indexed = not (is_empty found) || not (is_empty schemas);
        incomplete =
            any (λ e. is_empty (evidence_owners e.evidence_id) || scope_conflict e) found
            || any (λ (s : Str × SchemaComponent). is_empty (schema_owners (s.1).schema_id))
                schemas;
      }

  -- changedRecords
  unfoldable pub changed_records : Str → Records
  unfolding whole_service one_file str_eq
  changed_records path = if str_eq path (lit ".") then whole_service else one_file path

  -- `evidenceById`, a Map built from the records: the last one with an id stays.
  last_evidence : Str → List Evidence → Option Evidence
  unfolding str_eq
  last_evidence id [] = none
  last_evidence id (e ∷ es) = elim (last_evidence id es) [
    | some f ↦ some f
    | none ↦ if str_eq e.evidence_id id then some e else none
  ]

  unfoldable pub has_source : Str → Bool
  unfolding last_evidence is_normalized_service_path
  has_source id = elim (last_evidence id snapshot.evidence) [
    | none ↦ false
    | some e ↦ normalized e.path
  ]

  -- `none`: an endpoint that the index has no entry for is a TypeError.
  unfoldable pub lacks_source : Str → Option Bool
  unfolding has_source lookup
  lacks_source endpoint_id = elim (lookup endpoint_id index.endpoint_ownership) [
    | none ↦ none
    | some o ↦ some (not (any has_source o.evidence_ids))
  ]

  -- some(), which stops at the first endpoint without a source
  unfoldable pub first_without_source : List Str → Option Bool
  unfolding lacks_source
  first_without_source [] = some false
  first_without_source (id ∷ ids) =
      let rest = first_without_source ids in
      elim (lacks_source id) [ none ↦ none | some lacks ↦ if lacks then some true else rest ]

  unfoldable pub endpoint_without_source_closure : Option Bool
  unfolding first_without_source
  endpoint_without_source_closure = first_without_source index.endpoint_ids

  abbrev invalid_path : Option Str → Bool
  invalid_path none = false
  invalid_path (some p) = not (is_normalized_service_path p)

  unfoldable pub owned_source_path_is_invalid : Bool
  unfolding evidence_owners is_normalized_service_path
  owned_source_path_is_invalid =
      any (λ e. invalid_path e.path && not (is_empty (evidence_owners e.evidence_id)))
        snapshot.evidence

  -- What the loop over the changed paths gathers.
  unfoldable pub gather : Str → List Str → Records → Records
  unfolding changed_records service_relative_path add_all
  gather root [] acc = acc
  gather root (p ∷ ps) acc =
      let r = changed_records (service_relative_path p root) in
      gather root ps (record {
        affected_endpoint_ids = add_all r.affected_endpoint_ids acc.affected_endpoint_ids;
        indexed = acc.indexed && r.indexed;
        incomplete = acc.incomplete || r.incomplete;
      })
