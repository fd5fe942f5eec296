-- ===== src/Lib.antt =====
-- Capability Mesh: the authorization core of a local router that indexes capabilities (tools, agents,
-- skills) and decides who may discover, load, call or administer them (capmesh/*.py, one SQLite
-- database).
--
-- The program's parts, and the files that model them:
--   * Prelude (Tests, Text, Lists, Updates, Codes, Errors, Sorting): Boolean tests on numbers, Python's
--     strings and their truth values, tables as lists of rows with the SELECT and UPDATE of the program,
--     ORDER BY and LIMIT, strings as code points for `strip`, `lower` and `in`, exceptions as values.
--   * Model: capmesh/models.py and the tables of capmesh/governance.py and capmesh/index.py that the
--     modelled code reads or writes, each with the columns it uses; `World` is the database with the
--     process-wide cache, `Env` what the process is given (clock, hash, environment).
--   * Access: capmesh/access_control.py, the decision on one request. Access/Rights has RIGHTS, ROLE_RIGHTS
--     and `requires_step_up`; Access/Refs `subject_refs`, `resource_refs`, `is_disabled`; Access/Grants
--     the single grants with `org_id_for_store` and its cache; Access/Evaluate `evaluate_access` and
--     `record_policy_decision`. The chain of `elif`s is cut into the part that denies (`barrier`) and
--     the part that grants. Proofs: Access/Denial, Scopes, Records, Strength, Audit,
--     Cache, Isolation.
--   * CapGuard: capmesh/cap_guard.py, the policy that decides whether a capability may be indexed as
--     callable. CapGuard/Policy has the vocabularies, `CapGuardPolicy` and `decide_isolation_mode`;
--     CapGuard/Checks `_scan_check` and the other controls; CapGuard/Evaluate
--     `evaluate_cap_guard_policy`. Proofs: CapGuard/Safety, Defaults.
--   * Lifecycle: capmesh/lifecycle_transitions.py, `transition_capability` and `transition_namespace`;
--     Lifecycle/Closed joins it to `evaluate_access`. Proofs: Lifecycle/Outcome, Deleted, Closed.
--   * Tasks: capmesh/task_runner.py. Tasks/Envelope has the table and the operations; Tasks/Steps a step
--     relation in which every query and every committed update of a caller is a step, so that calls
--     interleave. Proofs: Tasks/Process, History, Settled.
--   * BreakGlass: capmesh/break_glass.py. Proofs: BreakGlass/Expiry, Revoked.
--   * Roles: capmesh/roles_orgs.py, a client of `evaluate_access`: assignment and revocation of roles,
--     membership of organizations (Roles/Operations, Roles/Members). Proofs: Roles/Changes.
--   * Namespaces: capmesh/namespace_owners.py, `transfer_namespace`. Proofs: Namespaces/Ownership.
--   * Promotions: capmesh/promotions.py and capmesh/risk_policy.py, by which a capability moves to the
--     namespace of an organization or of everyone. Promotions/Gates has the dict of gates,
--     Promotions/Submit `submit_promotion`, Promotions/Review the checks of `approve_request`,
--     Promotions/Writes and Approve its writes. Proofs: Promotions/Submitted, Approved, Found,
--     Production, Follow, Risk, and Closed, which joins it to `evaluate_access`.
--   * Sharing: capmesh/stores.py, `create_share` and `revoke_share` (Sharing/Shares). Proofs:
--     Sharing/Escalation, Expiry, Revocation.
--   * Dependencies: capmesh/dependency_graph.py, the table of dependencies (Dependencies/Table) and
--     `topological_sort` (Dependencies/Kahn). Proofs: Dependencies/Counts, Invariant, Orders,
--     Deployment, Acyclic.
--   * Versions: capmesh/semver_policy.py, `parse_semver` and `compare_semver` (Versions/Semver, with the
--     three-way results of Versions/Signs) and `resolve_version_conflict` (Versions/Conflict). Proofs:
--     Versions/Order, Maximum, Candidates, Winner.
--   * RegistryLog: capmesh/registry_log.py, the hash-chained log. Proofs: RegistryLog/Chain, Tamper.
--
-- State is passed explicitly: an operation takes the tables and returns them, and one that raises
-- returns an error and, where it has written nothing, no table. Rows stand in insertion order. Numbers
-- are natural numbers: the counts of a scan, which the source would treat like a finding if they were
-- negative, are taken not to be; where another int may be negative, 0 does the same. Loops run over finite lists and are structural, but for the queue of
-- `topological_sort`, whose fuel is the number of nodes: each turn takes a new node.
--
-- Parameters: SHA-256 and `stable_id`, `isoformat` and the clock, the decimal text of a number, random
-- keys (`new_id`), the handler of a task. What a theorem relies on of them stands among its hypotheses.
-- Strings are compared by code points, as Python and SQLite's binary collation do; `lower` and `strip`
-- are those of ASCII.
-- In the promotions, `review_capability` of capmesh/lifecycle.py, which reads source files and runs
-- checks on them, is the parameter `gate_runner`: it gives the states of the gates, or none where it
-- raises, and the policy decisions that it records; so are the scan for blocking phrases and `slugify`.
-- In the shares, `ensure_identity_for_principal` of capmesh/governance.py is the parameter
-- `ensure_identity`.
--
-- Not modelled: foreign keys (the tenants and other rows that a row names are taken to be there, so that
-- an insert does not raise), gates stored as a list (the code writes a dict), messages and evidence texts, `commit` flags, the HTTP and MCP servers, the command line,
-- the search index and embeddings, manifest parsing, federation, identity providers, signing and
-- metrics, which are input and output, calls of other services, or large and separate parts; and
-- the creation of stores, the compatibility of dependencies, tokens, the quarantine queue and the
-- install policy, which stand on the parts above.
mod Prelude
pub mod Model
pub mod Access
pub mod CapGuard
pub mod Tasks
pub mod Lifecycle
pub mod BreakGlass
pub mod RegistryLog
pub mod Roles
pub mod Namespaces
pub mod Promotions
pub mod Sharing
pub mod Versions
pub mod Dependencies
