-- ===== src/Store/Listings.antt =====
-- What moxi-store lists of a run, each table in the order of its rows.
use essence_agent.Base.{String, Option, List, map, keep, ◌==◌, string_eq}
use essence_agent.Base.Table.{Table, lookup}
use essence_agent.Contracts.{
  RunStatus, PolicyDecision, ExecutionTicket, ApprovalGrant, SandboxResult, Proof, LedgerEvent,
}
use essence_agent.Store.State.{Store}

-- `SELECT payload_json FROM ... ORDER BY rowid ASC`
abbrev rows : {V : Type 0} → Table V → List V
rows = map (λ row. row.1)

module _ (run_id : String) (s : Store) where
  unfoldable pub policy_decisions_for_run : List PolicyDecision
  policy_decisions_for_run = keep (λ item. item.run_id == run_id) (rows s.policy_decisions)

  unfoldable pub execution_tickets_for_run : List ExecutionTicket
  execution_tickets_for_run =
      keep (λ item. item.run_id == run_id) (map (λ row. row.payload) (rows s.execution_tickets))

  unfoldable pub approval_grants_for_run : List ApprovalGrant
  approval_grants_for_run = keep (λ item. item.run_id == run_id) (rows s.approval_grants)

  unfoldable pub sandbox_results_for_run : List SandboxResult
  sandbox_results_for_run = keep (λ item. item.run_id == run_id) (rows s.sandbox_results)

  unfoldable pub proofs_for_run : List Proof
  proofs_for_run = keep (λ item. item.run_id == run_id) (rows s.proofs)

  unfoldable pub ledger_events_for_run : List LedgerEvent
  ledger_events_for_run =
      keep (λ item. item.run_id == run_id) (map (λ row. row.payload) s.ledger_events)

pub record StoredRunObservation : Type 0 where
  pub run_id : String
  pub status : Option RunStatus
  pub policy_decisions : List PolicyDecision
  pub approval_grants : List ApprovalGrant
  pub execution_tickets : List ExecutionTicket
  pub sandbox_results : List SandboxResult
  pub proofs : List Proof
  pub ledger_events : List LedgerEvent

unfoldable pub observe_run : String → Store → StoredRunObservation
unfolding policy_decisions_for_run execution_tickets_for_run approval_grants_for_run
    sandbox_results_for_run proofs_for_run ledger_events_for_run
observe_run run_id s = record {
  run_id = run_id;
  status = lookup run_id s.run_states;
  policy_decisions = policy_decisions_for_run run_id s;
  approval_grants = approval_grants_for_run run_id s;
  execution_tickets = execution_tickets_for_run run_id s;
  sandbox_results = sandbox_results_for_run run_id s;
  proofs = proofs_for_run run_id s;
  ledger_events = ledger_events_for_run run_id s;
}
