-- ===== src/Store/Facts.antt =====
-- The recorded facts: contracts, manifests, policy decisions, tickets, grants, results, proofs.
use essence_agent.Base.{ℕ, String, Option, none, some, List, map, keep, ◌==◌, string_eq}
use mathlib.Core.Option
use essence_agent.Base.Table.{lookup, insert_new, update}
use essence_agent.Base.Outcome.Pure.{ok, err}
use essence_agent.Base.Outcome.Action.{gets}
use essence_agent.Contracts.{
  CapabilityContract, ExecutorManifest, ApprovalGrant, PolicyDecision, ExecutionTicket,
  SandboxResult, Proof,
}
use essence_agent.Store.State.{StoreAction, TicketRow, save, ticket_unknown, ticket_consumed}

unfoldable pub record_capability_contract : CapabilityContract → StoreAction (Unit {0})
record_capability_contract contract s =
    save (insert_new contract.capability_id contract s.capability_contracts)
      (λ t. record s { capability_contracts = t }) s

unfoldable pub capability_contract : String → StoreAction (Option CapabilityContract)
capability_contract capability_id = gets (λ s. lookup capability_id s.capability_contracts)

unfoldable pub record_executor_manifest : ExecutorManifest → StoreAction (Unit {0})
record_executor_manifest manifest s =
    save (insert_new manifest.executor_id manifest s.executor_manifests)
      (λ t. record s { executor_manifests = t }) s

unfoldable pub executor_manifest : String → StoreAction (Option ExecutorManifest)
executor_manifest executor_id = gets (λ s. lookup executor_id s.executor_manifests)

unfoldable pub record_policy_decision : PolicyDecision → StoreAction (Unit {0})
record_policy_decision policy s =
    save (insert_new policy.decision_id policy s.policy_decisions)
      (λ t. record s { policy_decisions = t }) s

unfoldable pub policy_decision : String → StoreAction (Option PolicyDecision)
policy_decision decision_id = gets (λ s. lookup decision_id s.policy_decisions)

unfoldable pub record_ticket : ExecutionTicket → StoreAction (Unit {0})
record_ticket ticket s =
    save
      (insert_new ticket.ticket_id (record { payload = ticket; consumed_at = none })
        s.execution_tickets)
      (λ t. record s { execution_tickets = t }) s

unfoldable pub execution_ticket : String → StoreAction (Option ExecutionTicket)
execution_ticket ticket_id =
    gets (λ s. Option.map (λ row. row.payload) (lookup ticket_id s.execution_tickets))

-- `now` is what `Utc::now()` returns when the ticket is marked
abbrev mark_consumed : ℕ → TicketRow → TicketRow
mark_consumed now row = record row { consumed_at = some now }

abbrev consume_row : ℕ → String → Option (Option ℕ) → StoreAction (Unit {0})
consume_row now ticket_id none s = (err (ticket_unknown ticket_id), s)
consume_row now ticket_id (some (some _)) s = (err (ticket_consumed ticket_id), s)
consume_row now ticket_id (some none) s = (
  ok tt,
  record s { execution_tickets = update ticket_id (mark_consumed now) s.execution_tickets },
)

unfoldable pub consume_ticket : ℕ → String → StoreAction (Unit {0})
consume_ticket now ticket_id s =
    consume_row now ticket_id
      (Option.map (λ row. row.consumed_at) (lookup ticket_id s.execution_tickets)) s

unfoldable pub record_approval_grant : ApprovalGrant → StoreAction (Unit {0})
record_approval_grant grant s =
    save (insert_new grant.grant_id grant s.approval_grants) (λ t. record s { approval_grants = t })
      s

unfoldable pub approval_grant : String → StoreAction (Option ApprovalGrant)
approval_grant grant_id = gets (λ s. lookup grant_id s.approval_grants)

abbrev pub grant_of_row : String × ApprovalGrant → ApprovalGrant
grant_of_row (_, grant) = grant

-- `WHERE policy_decision_ref = ?1 ORDER BY rowid ASC`
unfoldable pub approval_grants_for_policy_decision : String → StoreAction (List ApprovalGrant)
approval_grants_for_policy_decision policy_decision_ref = gets (λ s.
    keep (λ grant. grant.policy_decision_ref == policy_decision_ref)
      (map grant_of_row s.approval_grants))

unfoldable pub record_sandbox_result : SandboxResult → StoreAction (Unit {0})
record_sandbox_result result s =
    save (insert_new result.ticket_id result s.sandbox_results)
      (λ t. record s { sandbox_results = t }) s

unfoldable pub sandbox_result : String → StoreAction (Option SandboxResult)
sandbox_result ticket_id = gets (λ s. lookup ticket_id s.sandbox_results)

unfoldable pub record_proof : Proof → StoreAction (Unit {0})
record_proof evidence s =
    save (insert_new evidence.proof_id evidence s.proofs) (λ t. record s { proofs = t }) s

unfoldable pub proof : String → StoreAction (Option Proof)
proof proof_id = gets (λ s. lookup proof_id s.proofs)
