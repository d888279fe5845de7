-- ===== src/Updates/Planner/Total.antt =====
-- packages/updates/src/planner.ts: when a plan's content is planned without a TypeError.
use api_truth.Prelude.{Bool, true, false, none, some}
use api_truth.Prelude.Text.{Str}
use api_truth.Prelude.Sets.{lookup}
use api_truth.Updates.Ownership.{Ownership, OwnershipIndex}

abbrev pub has_entry : OwnershipIndex → Str → Bool
has_entry index id = elim (lookup id index.endpoint_ownership) [ none ↦ false | some o ↦ true ]
