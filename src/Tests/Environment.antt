-- ===== src/Tests/Environment.antt =====
-- Runs of packages/environment/src/resolution.ts at concrete inputs.
use api_truth.Prelude.{◌≡◌, ◌≢◌, refl, none, some, [], ◌∷◌}
use api_truth.Prelude.Text.{Str, lit, str_eq, str_eq-ne}
use api_truth.Environment.Resolution.{
  Input, Item, Contract, RevisionReference, ServingState, Completeness, bindings_of, snapshots_of,
  resolve_environment,
}
use api_truth.Environment.Resolution.Pinning.{IsPinned, IsPinned-resolved, resolved-IsPinned}
use api_truth.Environment.Resolution.Inventory.{observing, resolve_environment_swap}

abbrev web : Item
web = record { artifact_id = lit "web"; revision = RevisionReference.known (lit "r1") }

abbrev api : Item
api = record { artifact_id = lit "api"; revision = RevisionReference.unknown }

abbrev one_item : Input
one_item = record {
  observation = some (record {
    completeness = Completeness.complete;
    serving_state = ServingState.known (web ∷ []);
  });
  latest_attempt = none;
  artifact_bindings = record { artifact_id = lit "web"; revision = lit "r1" } ∷ [];
  revision_snapshots = record { revision = lit "r1"; snapshot_id = lit "s1" } ∷ [];
}

one_item-IsPinned : IsPinned one_item (lit "s1")
unfolding bindings_of snapshots_of str_eq
one_item-IsPinned = record {
  artifact = lit "web";
  revision = lit "r1";
  observed = refl;
  binding = record { artifact_id = lit "web"; revision = lit "r1" };
  bound = refl;
  bound_revision = refl;
  analysis = record { revision = lit "r1"; snapshot_id = lit "s1" };
  analysed_once = refl;
  pinned = refl;
}

IsPinned-resolved_example :
    ((resolve_environment one_item).contract ≡ Contract.resolved)
    × ((resolve_environment one_item).snapshot_id ≡ some (lit "s1"))
IsPinned-resolved_example = IsPinned-resolved one_item (lit "s1") one_item-IsPinned

resolved-IsPinned_example : (snapshot : Str) × IsPinned one_item snapshot
unfolding resolve_environment str_eq
resolved-IsPinned_example = resolved-IsPinned one_item refl

web-ne-api : web.artifact_id ≢ api.artifact_id
unfolding str_eq
web-ne-api = str_eq-ne (lit "web") (lit "api") refl

resolve_environment_swap_example :
    resolve_environment (observing one_item Completeness.complete (web ∷ web ∷ api ∷ []))
    ≡ resolve_environment (observing one_item Completeness.complete (web ∷ api ∷ web ∷ []))
resolve_environment_swap_example =
    resolve_environment_swap one_item Completeness.complete (web ∷ []) web api [] web-ne-api
