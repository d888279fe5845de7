-- ===== src/Tests/Differences.antt =====
-- Runs of packages/updates/src/differences.ts at concrete inputs.
use mathlib.Core.List.{Perm}
use api_truth.Prelude.{
  true, false, ℕ, suc, Bool, true, false, ◌&&◌, ◌≡◌, ◌↔◌, refl, arith, none, some, List, [], ◌∷◌,
  ◌++◌, map, all, length,
}
use api_truth.Prelude.Text.{Str, lit, str_eq, str_lt}
use api_truth.Prelude.Sets.{has}
use api_truth.Prelude.Sorting.{sort}
use api_truth.Json.{Json, str, obj, end}
use api_truth.Orchestration.Canonical.{serialize}
use api_truth.Orchestration.Canonical.Total.{is_some}
use api_truth.Updates.Utf8.{utf8}
use api_truth.Updates.Snapshot.{ContractSnapshot}
use api_truth.Updates.Ownership.{OwnershipIndex}
use api_truth.Updates.Differences.Facts.{
  Presence, Facts, Endpoint, Coverage, complete, incomplete, is_incomplete, required, optional,
  default,
}
use api_truth.Updates.Differences.Drafts.{
  DifferenceDraft, endpoint_absence_unconfirmed, non_breaking,
}
use api_truth.Updates.Differences.Labels.{Member, changed_member_compatibility}
use api_truth.Updates.Differences.Conditions.{
  Conditions, ClaimMemberProjection, cancel_equal_conditions,
}
use api_truth.Updates.Differences.Claims.{ClaimOwner, changed_claim_compatibility}
use api_truth.Updates.Differences.Paths.{names_from, path_parameter_names}
use api_truth.Ir.Identity.{shape, normalize_application_path_shape}
use api_truth.Updates.Differences.Canonical.{object, array, canonical_schema}
use api_truth.Updates.Differences.Paths.Accepted.{names_from-normalize_application_path_shape}
use api_truth.Updates.Differences.Paths.Constraint.{
  brace_parameter, normalize_application_path_shape-brace_parameter,
}
use api_truth.Updates.Differences.Paths.Closed.{is_closed, names_from-is_closed}
use api_truth.Updates.Differences.Checks.{incompatibilities}
use api_truth.Updates.Differences.Snapshots.{never_returns, all_endpoint_drafts}
use api_truth.Updates.Differences.Compare.{
  whole_set, ContractDifference, ContractDifferenceSet, compare_contract_snapshots-compared,
}
use api_truth.Updates.Differences.Absence.{is_justified}
use api_truth.Updates.Differences.Coverage.{compare_contract_snapshots-is_justified}
use api_truth.Updates.Differences.Cancelled.{key, remaining_of, cancel_equal_conditions-sort}
use api_truth.Updates.Differences.Replaced.{Replaces, changed_claim_compatibility-Replaces}

abbrev contract : ContractSnapshot
contract = record {
  repository_id = lit "r";
  service_id = lit "s";
  service_root = lit ".";
  analysis = record {
    analyzer_id = lit "nodejs";
    analyzer_version = lit "1.0.0";
    analyzer_exchange_version = lit "1";
    ir_version = lit "1";
    identity_version = lit "1";
    config_version = lit "1";
    config_fingerprint = lit "f";
  };
  snapshot_id = lit "s1";
  immutable_revision = lit "0123456789ab";
  source_digest = lit "d";
  coverage_complete = true;
  schemas = [];
  endpoints = [];
  claims = [];
  export_eligibility = [];
  evidence = [];
  dependencies = [];
}

abbrev endpoint : Endpoint
endpoint = record {
  endpoint_id = lit "e1";
  identity = record {
    identity_version = lit "1";
    route_key = lit "k";
    service_id = lit "s";
    method = lit "GET";
    normalized_path_shape = lit "/orders/{}";
    selectors = obj end;
  };
  application_path = lit "/orders/{id}";
  parameters =
      record {
        name = lit "id";
        location = lit "path";
        presence = required;
        schema = obj end;
        serialization = obj end;
      }
      ∷ [];
  request_bodies = [];
  responses = record { status = default; content = []; headers = [] } ∷ [];
  security_state = none;
  alternatives = [];
}

abbrev facts : Coverage → List Endpoint → Facts
facts coverage endpoints = record {
  contract = contract;
  root = lit ".";
  identity_version = lit "1";
  coverage = coverage;
  endpoints = endpoints;
  schemas = [];
  security_schemes = [];
  claims = [];
  diagnostics = [];
}

abbrev before : Facts
before = facts complete (endpoint ∷ [])

-- An analysis that found no endpoint, and knows that it is not complete.
abbrev after : Facts
after = facts (incomplete (lit "parse error")) []

abbrev build : ContractSnapshot → OwnershipIndex
build s = record {
  endpoint_ids = [];
  evidence_owners = [];
  schema_owners = [];
  evidence_owner_routes = [];
  endpoint_ownership = [];
}

abbrev digest : Str → Str
digest s = s

after_comparable : incompatibilities before after ≡ []
unfolding incompatibilities serialize
after_comparable = refl

-- No issue of the result's own check.
abbrev no_codes : ContractDifferenceSet → List Str
no_codes r = []

abbrev changes : ContractDifferenceSet
changes = whole_set digest build no_codes before after

after_returns : never_returns before after ≡ false
unfolding never_returns serialize
after_returns = refl

compare_contract_snapshots-is_justified_example :
    all
      (λ (d : ContractDifference). is_justified (is_incomplete after.coverage) d.draft)
      changes.differences
    ≡ true
compare_contract_snapshots-is_justified_example =
    compare_contract_snapshots-is_justified digest build no_codes before after changes (
      compare_contract_snapshots-compared digest build no_codes before after after_comparable
        after_returns refl)

-- The endpoint that is gone is not reported as removed.
unconfirmed :
    map (λ (d : DifferenceDraft). d.kind) (all_endpoint_drafts before after)
    ≡ endpoint_absence_unconfirmed ∷ []
unfolding all_endpoint_drafts serialize
unconfirmed = refl

abbrev one_side : Conditions
one_side = some (str (lit "b")) ∷ none ∷ some (str (lit "a")) ∷ []

abbrev other_side : Conditions
other_side = some (str (lit "a")) ∷ some (str (lit "c")) ∷ []

cancel_equal_conditions-sort_example :
    (c : List Str) × Perm
      (c ++ map key (remaining_of one_side other_side).before)
      (map key one_side)
    × Perm (c ++ map key (remaining_of one_side other_side).after) (map key other_side)
    × ((k : Str)
        → has k (map key (remaining_of one_side other_side).before)
            && has k (map key (remaining_of one_side other_side).after)
          ≡ false)
cancel_equal_conditions-sort_example = cancel_equal_conditions-sort one_side other_side

cancel_test : (remaining_of one_side other_side).before ≡ some (str (lit "b")) ∷ none ∷ []
unfolding cancel_equal_conditions sort serialize utf8
cancel_test = refl

names_from-is_closed_example :
    is_some (names_from 30 (lit "/a/{id:[0-9]+}/:name") (lit "/a/{id:[0-9]+}/:name"))
    ≡ is_closed (lit "/a/{id:[0-9]+}/:name")
names_from-is_closed_example = names_from-is_closed 30 (lit "/a/{id:[0-9]+}/:name") (omega arith)

names_test : path_parameter_names (lit "/a/{id:[0-9]+}/:name") ≡ some (lit "id" ∷ lit "name" ∷ [])
unfolding path_parameter_names str_eq str_lt utf8
names_test = refl

abbrev member : Presence → Member
member presence = record {
  presence = presence;
  schema = obj end;
  serialization = obj end;
  encoding = none;
}

loosened : changed_member_compatibility (member required) (member optional) ≡ non_breaking
unfolding changed_member_compatibility serialize
loosened = refl

abbrev owner : ClaimOwner
owner = record {
  service_id = lit "s";
  endpoint_id = none;
  schema_pointer = none;
  predicate = lit "request.field.presence";
}

abbrev claimed_as : Str → List ClaimMemberProjection
claimed_as s = record { value = str s; verification = lit "declared"; condition = none } ∷ []

loosened_claim :
    changed_claim_compatibility owner (claimed_as (lit "required")) (claimed_as (lit "optional"))
    ≡ non_breaking
unfolding changed_claim_compatibility serialize
loosened_claim = refl

changed_claim_compatibility-Replaces_example :
    (changed_claim_compatibility owner (claimed_as (lit "required")) (claimed_as (lit "optional"))
      ≡ non_breaking)
    ↔ ((owner.predicate ≡ lit "request.field.presence")
        × Replaces (claimed_as (lit "required")) (claimed_as (lit "optional")))
changed_claim_compatibility-Replaces_example =
    changed_claim_compatibility-Replaces owner (claimed_as (lit "required"))
      (claimed_as (lit "optional"))

abbrev compiles : Str → Bool
compiles s = true

names_from-normalize_application_path_shape_example :
    is_some (names_from (suc (length (lit "/a/{id}/:b"))) (lit "/a/{id}/:b") (lit "/a/{id}/:b"))
    ≡ true
unfolding normalize_application_path_shape
names_from-normalize_application_path_shape_example =
    names_from-normalize_application_path_shape compiles (lit "/a/{id}/:b") (lit "/a/{}/{}") refl
      refl

normalize_application_path_shape-brace_parameter_example :
    (normalize_application_path_shape compiles (lit "/a/" ++ brace_parameter)
      ≡ shape (lit "/a/" ++ lit "{:\\{}"))
    × ((n : ℕ)
        → is_some (names_from n (lit "/a/" ++ brace_parameter) (lit "/a/" ++ brace_parameter))
          ≡ false)
normalize_application_path_shape-brace_parameter_example =
    normalize_application_path_shape-brace_parameter compiles (lit "/a/") refl refl

-- A constant's own members are taken for keywords: two schemas with different constants agree.
abbrev constant : (first second : Str) → Json
constant first second =
    object ((lit "const", object ((lit "enum", array (str first ∷ str second ∷ [])) ∷ [])) ∷ [])

constant_test :
    canonical_schema (constant (lit "a") (lit "b"))
    ≡ canonical_schema (constant (lit "b") (lit "a"))
unfolding canonical_schema object array serialize utf8 str_eq
constant_test = refl
