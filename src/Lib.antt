-- ===== src/Lib.antt =====
-- API Truth: the decision logic of the packages orchestration, environment, updates, observations and
-- query.
--
-- API Truth extracts a contract snapshot from a service's source, keeps it in a catalog, and decides
-- on every event which jobs run, which snapshot an environment serves and which endpoints a change of
-- the source may affect. The packages are mostly SQL around a core of pure functions; the core is what
-- these files model.
--
-- - Prelude: native numbers, JavaScript strings as lists of UTF-16 units (Prelude/Text), string-keyed
--   sets and maps in insertion order (Prelude/Sets), the stable sort (Prelude/Sorting).
-- - Json: JavaScript values as the canonical serializers see them. A number carries its printed text
--   and, if it is a non-negative safe integer, its value; `exotic` stands for all that they refuse.
-- - Orchestration/Canonical: packages/orchestration/src/canonical.ts, `serialize` for
--   canonicalOrchestrationJson and `detached` for the round trip through JSON.parse. The serializer of
--   packages/updates/src/canonical.ts prints the same text, and is this one too.
-- - Ir/Identity: normalizeApplicationPathShape of packages/ir/src/identity.ts, on as many rounds as the
--   path has units and one more; whether a regular expression compiles is a parameter.
-- - Issues: the issues that the errors of packages/orchestration/src/errors.ts and
--   packages/updates/src/errors.ts carry; the two sanitizers differ in their sets only.
-- - Orchestration/State: packages/orchestration/src/state.ts. `reduce_job_state`,
--   `compute_retry_delay_ms` and `reduce_outbox_state` take untyped values as the source does; `reduce`,
--   `retry_delay` and `reduce_outbox` are their typed cores. A thrown OrchestrationError is a result of
--   Orchestration/Errors.
-- - Orchestration/Ordering: packages/orchestration/src/ordering.ts, with parseProviderEvidence.
-- - Environment/Resolution: packages/environment/src/resolution.ts. The two flags that its map sets are
--   part of what the map gives for one item.
-- - Environment/Ordering: packages/environment/src/ordering.ts, on parsed observations.
-- - Observations/Template, Url, Context, Inert, Correlation: packages/observations/src/matcher.ts and
--   types.ts. Inert is inertJson and parseObservation; its walk hands the counts of nodes and bytes on.
--   The platform's URL class and Date.parse are the parameter `Platform`. The test that a context has its
--   members is in the types.
-- - Query/Selector: packages/query/src/selector.ts; its one error is `none`.
-- - Updates/Snapshot: the members of packages/ir/src's ContractSnapshot that the planner reads.
-- - Updates/References, Closure, Ownership, Index, Changed, Planner: packages/updates/src/planner.ts. The
--   planner takes the function that builds the ownership index as an argument, as createUpdatePlanner
--   does; Updates/Index is buildEndpointOwnershipIndex.
-- - Updates/Plan and Input: validatePlanSemantics of packages/updates/src/schema.ts and semanticIssues
--   of input.ts; Updates/Shape: what the schemas of both ask beyond the types. The check of the base
--   snapshot, parseContractSnapshot of packages/ir, is a parameter: the codes of the issues that it finds.
-- - Updates/Differences: packages/updates/src/differences.ts. Facts holds the members of a snapshot that
--   are compared, Canonical and Projection their canonical forms, Members, ClaimDrafts, Snapshots and
--   Analysis the drafts, Checks what makes two snapshots incomparable, Compare the result. A canonical
--   text is a total function there, since a snapshot is parsed from JSON; a `type` or `required` that
--   holds something else than strings, at which the source can throw a TypeError, is not modelled. The
--   check of the result, parseContractDifferenceSet, is a parameter: the codes of its issues.
--   The three loops over members and the one over schemas are one function, `all_fact_drafts`, with a
--   record of what each has of its own.
-- - Updates/Utf8: compareUtf8 and the canonical orders of packages/updates/src/canonical.ts.
--
-- Three loops are not structural. componentClosure's work list runs on fuel that counts visits, and the
-- number of components is enough, since every visit adds one. The passes over the dependencies of
-- buildEndpointOwnershipIndex run on fuel that the caller gives; no result here depends on it. The search
-- for path parameters runs on one round more than the path has units, which is enough for a path whose
-- braces are closed; on another the source does not return, and the comparison is `without_result`. The
-- digest of node:crypto is a parameter, an arbitrary function of the text. A double is not modelled: the delay
-- is a product of a safe integer with a power of two below 2 ^ 53, which a double holds exactly.
--
-- Not modelled: the validation of snapshots and of the shapes but those named above (a third-party
-- schema library), the stores, leases and workers (SQL), the analyzers (which work on third-party syntax
-- trees), the connectors and the applications.
pub mod Prelude
pub mod Json
pub mod Ir
pub mod Issues
pub mod Orchestration
pub mod Environment
pub mod Updates
pub mod Query
pub mod Observations
pub mod Tests
