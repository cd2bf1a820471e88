-- ===== src/Store/Account.antt =====
-- What the store holds where it accounts for a successful event of the ledger.
use essence_agent.Base.{◌≡◌, ◌≢◌, ◌⊎◌, some, [], string_eq, All, map}
use mathlib.Core.List.{Memᴰ}
use essence_agent.Base.Table.{lookup}
use essence_agent.Contracts.{
  LedgerEvent, PolicyDecision, Decision, Decision-eq, ApprovalGrant, SandboxResult, Proof,
  CapabilityContract, ExecutorManifest,
}
use essence_agent.Platform.{Platform}
use essence_agent.Store.{Store, TicketRow, grant_of_row}
use essence_agent.Store.Evidence.{
  TicketMatches, CapabilityMatches, ExecutorMatches, PolicyMatches, GrantMatches, ResultMatches,
  ProofMatches,
}

-- Some grant is recorded for the policy decision and matches the event.
pub record IsApproved (s : Store) (event : LedgerEvent) (policy : PolicyDecision) : Type 0 where
  pub grant : ApprovalGrant
  pub recorded : Memᴰ grant (map grant_of_row s.approval_grants)
  pub for_policy : grant.policy_decision_ref ≡ policy.decision_id
  pub matches : GrantMatches event grant

-- A policy decision that lets the event stand.
pub record Allows (s : Store) (event : LedgerEvent) (policy : PolicyDecision) : Type 0 where
  pub not_denied : policy.decision ≢ Decision.deny
  pub approved : (policy.decision ≢ Decision.require_approval) ⊎ IsApproved s event policy

-- The store accounts for a successful event.
pub record IsAccounted (p : Platform) (s : Store) (event : LedgerEvent) : Type 0 where
  pub has_proofs : event.proof_refs ≢ []
  pub ticket :
      (row : TicketRow) × (lookup event.execution_ticket_ref s.execution_tickets ≡ some row)
      × TicketMatches event row.payload
  pub capability :
      (contract : CapabilityContract) × (lookup event.capability_id s.capability_contracts
        ≡ some contract)
      × CapabilityMatches p event contract
  pub executor :
      (manifest : ExecutorManifest) × (lookup event.executor_ref s.executor_manifests
        ≡ some manifest)
      × ExecutorMatches p event manifest
  pub policy :
      (decision : PolicyDecision) × (lookup event.policy_decision_ref s.policy_decisions
        ≡ some decision)
      × PolicyMatches event decision
      × Allows s event decision
  pub result :
      (outcome : SandboxResult) × (lookup event.execution_ticket_ref s.sandbox_results
        ≡ some outcome)
      × ResultMatches p event outcome
      × All
          (λ id.
            (evidence : Proof) × (lookup id s.proofs ≡ some evidence)
            × ProofMatches p event outcome evidence)
          event.proof_refs
