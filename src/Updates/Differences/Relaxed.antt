-- ===== src/Updates/Differences/Relaxed.antt =====
-- packages/updates/src/differences.ts: which changes of members break nothing.
use api_truth.Prelude.{Bool, true, false, ◌≡◌}
use api_truth.Updates.Differences.Facts.{Presence, required, conditional}
use api_truth.Updates.Differences.Drafts.{unknown}
use api_truth.Updates.Differences.Labels.{Member, schema_text, encoding_text}

abbrev pub is_restrictive : Presence → Bool
is_restrictive required = true
is_restrictive (conditional c) = true
is_restrictive _ = false

abbrev pub is_unknown : Presence → Bool
is_unknown Presence.unknown = true
is_unknown _ = false

-- The two members have the same schema, serialization and encoding.
pub record SameShape (before after : Member) : Type 0 where
  pub schema : schema_text before ≡ schema_text after
  pub encoding : encoding_text before ≡ encoding_text after
