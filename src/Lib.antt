-- ===== src/Lib.antt =====
-- The trusted core of the Essence agent: the contracts (crates/moxi-contracts/src/lib.rs), the
-- store with its ledger (crates/moxi-store/src/lib.rs) and the kernel (crates/moxi-core/src/lib.rs);
-- the way of a request into it (crates/moxi-entry, crates/moxi-gateway and crates/moxi-intent, each
-- its src/lib.rs); the hot path before it (crates/moxi-hotpath/src/lib.rs); and the subagents that a
-- run may have (crates/moxi-swarm/src/lib.rs).
--
-- A run is admitted with a budget, beats, and proposes deltas. The policy engine allows a delta,
-- denies it, or asks for an approval that an operator grants. For a decision that stands the kernel
-- issues a ticket; a ticket pays for one call of an executor; the result of the call is verified
-- into a proof, and an event that cites the proof is committed to the ledger, a chain of hashes. The
-- store keeps all of it, and `replay_ledger_audit` checks the ledger against the rest.
--
-- Base: lists, text, where one text stands in another, equality, tables, and the two kinds of
--   fallible code. A `Result` is a value; an `Action` is a function from a state to a result and the
--   state after it, also after an error.
-- Contracts: the enumerations and structs, with the fields of the source.
-- Platform: serde_json, sha2 and jsonschema, as functions that the model takes as a parameter, and
--   the hashes and ids that are made with them.
-- Store: the SQLite tables are tables keyed by their primary key, with the rows in `rowid` order.
--   Store/State has the tables and `StoreError`, Store/Runs `transition_run_status` and the budgets,
--   Store/Facts the `record_*` methods, the look-ups and `consume_ticket`, Store/Ledger
--   `append_ledger_event` and `validate_ledger_hash_chain`, Store/Bindings and Store/Audit
--   `replay_ledger_audit`, Store/Listings `observe_run` and the lists of a run. The other modules of
--   Store are about these: Observed, Lifecycle, Counters (one call) and Budgets (any calls), Tickets,
--   Chain and Tamper, Evidence, Account, Approved and Accounted (one event), Replay and Report (all
--   of them).
-- Core: Core/Patterns and Core/Policy have `PolicyEngine`, Core/Manifests the comparisons of
--   contracts, manifests, tickets, results and proofs, Core/Errors `CoreError`, and Core/Kernel the
--   methods of `Kernel`: Registration, Admission, Approval, Execution and Commit. Grounds and
--   Verdict are about the policy engine, Modes about the permission modes, Proposed about
--   decisions, Authority about tickets, Executed about calls, Committed about `verify` and `commit`.
--   Frame says which recorded facts the calls on a ticket keep, and Matching and Accountable lead
--   from the ticket to the audit of its event.
-- Ingress: Ingress/Entry has `EntryAdapter`, Ingress/Gateway `Gateway` and Ingress/Intent
--   `IntentCompiler`. Capabilities, Reading, Redaction, Admission and Limits are about parts of them,
--   Compiled about all three and the contract that the kernel makes.
-- Hotpath: Hotpath/Data has the structs, Hotpath/Controller `HotPathController` and its decisions,
--   Hotpath/Latency `snapshot` and `percentile`. Decisions and Total are about the first, Percentiles
--   and Snapshots about the second. `expect` and an index that may be out of range are written as a
--   result that names the panic.
-- Swarm: Swarm/Data has the structs, Swarm/Planning `SwarmController`, Swarm/Merging the messages,
--   reviews and merges. Bounds is about plans and handoffs, Reviewed about merges, Messages about
--   findings.
-- Tests: a run through the kernel, state by state, and the theorems at its states.
--
-- An instant is the number of milliseconds from the earliest one, and a `serde_json::Value` its
-- compact text. The source's counters are u32 and its timeouts u64; the model keeps them as natural
-- numbers, since a counter of the store or of the gateway stays at or below its limit. Where a width
-- matters it is written out: the kernel caps a timeout at i64::MAX, the store refuses to write one
-- above it, as rusqlite does, and moxi-swarm casts a count to u32. Fresh identifiers, the results of
-- `Utc::now()` and the answers of executors are arguments. All loops go through lists, so no fuel is
-- needed.
--
-- Not modelled: failures of the SQLite connection and the migration of its schema, the built-in
-- `file.read` capability, `swarm_metric` and the JSON payload of moxi-swarm, and the other crates,
-- which display, orchestrate or extend what the core decides.
pub mod Base
pub mod Contracts
pub mod Platform
pub mod Store
pub mod Core
pub mod Ingress
pub mod Hotpath
pub mod Swarm
mod Tests
