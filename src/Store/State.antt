-- ===== src/Store/State.antt =====
-- The errors and the tables of `Store`, and the insertion of a row.
use essence_agent.Base.{ℕ, String, Bool, Option, none, some, List, []}
use essence_agent.Base.Table.{Table}
use essence_agent.Base.Outcome.Pure.{ok, err}
use essence_agent.Base.Outcome.Action.{Action}
use essence_agent.Contracts.{
  RunStatus, CapabilityContract, ExecutorManifest, ApprovalGrant, PolicyDecision, ExecutionTicket,
  SandboxResult, Proof, LedgerEvent,
}

-- a value in the message of a failed audit, before `{:?}` writes it out
pub data Shown : Type 0 where
  text : String → Shown
  optional : Option String → Shown
  flag : Bool → Shown

pub data StoreError : Type 0 where
  -- the errors of `rusqlite` that the queries can meet: a key twice, a row missing, and a `u64` that
  -- is no `i64`
  sqlite_constraint sqlite_no_rows sqlite_conversion : StoreError
  invalid_transition : Option RunStatus → RunStatus → StoreError
  -- run, counter, current, max
  budget_exceeded : String → String → ℕ → ℕ → StoreError
  ticket_unknown ticket_consumed : String → StoreError
  -- event, expected, actual
  ledger_chain_broken ledger_hash_mismatch : String → String → String → StoreError
  ledger_audit_proof_required : String → StoreError
  -- event, what it refers to
  ledger_audit_missing_ticket ledger_audit_missing_policy_decision : String → String → StoreError
  ledger_audit_missing_capability_contract ledger_audit_missing_executor_manifest :
      String → String → StoreError
  ledger_audit_denied_policy_decision ledger_audit_missing_approval_grant :
      String → String → StoreError
  ledger_audit_missing_sandbox_result ledger_audit_missing_proof : String → String → StoreError
  -- event, field, expected, actual
  ledger_audit_binding_mismatch : String → String → Shown → Shown → StoreError
  -- event, proof, expected, actual
  ledger_audit_proof_hash_mismatch : String → String → String → String → StoreError

-- a row of `run_usage`
pub record Usage : Type 0 where
  pub max_steps : ℕ
  pub max_heartbeats : ℕ
  pub max_tool_calls : ℕ
  pub timeout_ms : ℕ
  pub steps : ℕ
  pub heartbeats : ℕ
  pub tool_calls : ℕ

-- a row of `execution_tickets`; `consumed_at` is NULL until the ticket is used
pub record TicketRow : Type 0 where
  pub payload : ExecutionTicket
  pub consumed_at : Option ℕ

-- a row of `ledger_events`: the payload, and the columns that repeat parts of it
pub record LedgerRow : Type 0 where
  pub ledger_event_id : String
  pub payload : LedgerEvent
  pub event_hash : String
  pub previous_event_hash : String

pub record Store : Type 0 where
  pub run_states : Table RunStatus
  pub run_usage : Table Usage
  pub capability_contracts : Table CapabilityContract
  pub executor_manifests : Table ExecutorManifest
  pub policy_decisions : Table PolicyDecision
  pub execution_tickets : Table TicketRow
  pub approval_grants : Table ApprovalGrant
  pub sandbox_results : Table SandboxResult
  pub proofs : Table Proof
  pub ledger_events : List LedgerRow

abbrev pub empty_store : Store
empty_store = record {
  run_states = [];
  run_usage = [];
  capability_contracts = [];
  executor_manifests = [];
  policy_decisions = [];
  execution_tickets = [];
  approval_grants = [];
  sandbox_results = [];
  proofs = [];
  ledger_events = [];
}

abbrev pub StoreAction : Type 0 → Type 0
StoreAction A = Action Store StoreError A

-- the end of an `INSERT`: the table with the new row, or a primary key that is taken
abbrev pub save : {T : Type 0} → Option T → (T → Store) → StoreAction (Unit {0})
save none write s = (err sqlite_constraint, s)
save (some t) write s = (ok tt, write t)
