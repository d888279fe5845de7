-- ===== src/Updates/Shape.antt =====
-- packages/updates/src/schema.ts, and the patterns of packages/ir/src/analyzer.ts: the constraints of
-- the shapes of a planner's input and of an update plan that the types do not have.
pub mod Unique
use api_truth.Prelude.{
  ℕ, Bool, true, false, ◌&&◌, ◌||◌, not, Option, none, some, List, [], ◌∷◌, map, all, leb, ◌==◌,
  length,
}
use api_truth.Prelude.Text.{Str, lit, str_eq, split, after_prefix}
use api_truth.Prelude.Sets.{has}
use api_truth.Updates.Snapshot.{AnalysisKey}
use api_truth.Updates.Plan.{Service, Content, UpdatePlan, rank_text}

-- NonEmptyString
abbrev pub is_nonempty : Str → Bool
is_nonempty [] = false
is_nonempty (c ∷ s) = true

abbrev is_digit : ℕ → Bool
is_digit c = leb b'0' c && leb c b'9'

abbrev is_hex : ℕ → Bool
is_hex c = is_digit c || (leb b'a' c && leb c b'f')

abbrev is_hex_of_any_case : ℕ → Bool
is_hex_of_any_case c = is_hex c || (leb b'A' c && leb c b'F')

-- ImmutableRevisionSchema, ^[a-fA-F0-9]{12,128}$
unfoldable pub is_revision : Str → Bool
is_revision s = leb 12 (length s) && (leb (length s) 128 && all is_hex_of_any_case s)

-- CanonicalSha256Schema, ^sha256:[a-f0-9]{64}$
unfoldable pub is_canonical_sha256 : Str → Bool
unfolding after_prefix
is_canonical_sha256 s = elim (after_prefix (lit "sha256:") s) [
  | none ↦ false
  | some hex ↦ length hex == 64 && all is_hex hex
]

-- [A-Za-z0-9_@+.-]
abbrev is_path_unit : ℕ → Bool
is_path_unit c =
    is_digit c
    || (leb b'A' c && leb c b'Z'
        || (leb b'a' c && leb c b'z'
            || (c == b'_' || (c == b'@' || (c == b'+' || (c == b'.' || c == b'-'))))))

abbrev is_path_segment : Str → Bool
is_path_segment s =
    is_nonempty s && (all is_path_unit s && (not (str_eq s (lit ".")) && not (str_eq s (lit ".."))))

-- NormalizedProjectPathSchema
unfoldable pub is_project_path : Str → Bool
unfolding str_eq split
is_project_path s = str_eq s (lit ".") || all is_path_segment (split b'/' s)

unfoldable pub is_analysis_key : AnalysisKey → Bool
is_analysis_key k = all is_nonempty (
    k.analyzer_id ∷ k.analyzer_version ∷ k.analyzer_exchange_version ∷ k.ir_version
    ∷ k.identity_version ∷ k.config_version ∷ k.config_fingerprint ∷ [])

-- uniqueItems
unfoldable pub has_unique_items : List Str → Bool
unfolding has
has_unique_items [] = true
has_unique_items (x ∷ l) = not (has x l) && has_unique_items l

unfoldable pub is_service : Service → Bool
unfolding is_project_path is_revision is_canonical_sha256
is_service s =
    all is_nonempty (s.repository_id ∷ s.service_id ∷ s.base_snapshot_id ∷ [])
    && (is_project_path s.service_root
        && (is_revision s.base_revision
            && (is_revision s.target_revision
                && (is_canonical_sha256 s.base_source_digest
                    && is_canonical_sha256 s.target_source_digest))))

-- UpdatePlanSchema; two reasons are the same if their ranks are.
unfoldable pub is_update_plan : UpdatePlan → Bool
unfolding is_service is_analysis_key is_project_path has_unique_items
is_update_plan p =
    is_nonempty p.plan_id
    && (is_service p.content.service
        && (is_analysis_key p.content.base
            && (is_analysis_key p.content.target
                && (all is_project_path p.content.changed_paths
                    && (has_unique_items p.content.changed_paths
                        && (all is_nonempty p.content.affected_endpoint_ids
                            && (has_unique_items p.content.affected_endpoint_ids
                                && has_unique_items
                                    (map rank_text p.content.fallback_reasons))))))))
