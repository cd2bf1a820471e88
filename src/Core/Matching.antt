-- ===== src/Core/Matching.antt =====
-- The event of `ledger_event_for_success` against the facts behind it, comparison by comparison.
use essence_agent.Base.{
  ℕ, ◌≤◌, String, ◌≡◌, inl, inr, sym, true, some, [], ◌∷◌, arith, string_eq, map, ◌==◌, Bool-cases,
  subst,
}
use mathlib.Core.List.{Memᴰ}
use mathlib.Core.List.Memᴰ.{head, tail}
use essence_agent.Base.Table.{Table, lookup}
use essence_agent.Base.Outcome.Pure.{ok}
use essence_agent.Contracts.{
  CapabilityContract, ExecutorManifest, PolicyDecision, Decision-eq, ApprovalGrant, ExecutionTicket,
  SandboxResult, Proof, LedgerEvent,
}
use essence_agent.Platform.{Platform, hash_json}
use essence_agent.Store.{Store, TicketRow, or_empty, sealed, grant_of_row}
use essence_agent.Store.Evidence.{
  TicketMatches, CapabilityMatches, ExecutorMatches, PolicyMatches, GrantMatches, ResultMatches,
  ProofMatches,
}
use essence_agent.Store.Account.{IsAccounted, Allows}
use essence_agent.Core.Manifests.{validate_result_ticket_binding, validate_executor_manifest}
use essence_agent.Core.Kernel.{Kernel, ticket_for, proof_for, ledger_event_for_success}
use essence_agent.Core.Authority.{Approves}

-- A grant that is found by its id is one of the grants.
pub found_grant :
    (id : String) (grant : ApprovalGrant) (t : Table ApprovalGrant)
    → lookup id t ≡ some grant
    → Memᴰ grant (map grant_of_row t)
found_grant id grant [] h = ground arith
found_grant id grant ((key, other) ∷ t) h = elim (Bool-cases (key == id)) [
  | inl same ↦ head (ground (arith, h, same))
  | inr differ ↦ tail (found_grant id grant t (ground (arith, h, differ)))
]

-- The references that a result has in common with its ticket.
pub bound_fields :
    (result : SandboxResult) (ticket : ExecutionTicket)
    → validate_result_ticket_binding result ticket ≡ ok tt
    → (result.ticket_id ≡ ticket.ticket_id)
      × (result.run_id ≡ ticket.run_id)
      × (result.capability_id ≡ ticket.capability_id)
      × (result.policy_decision_ref ≡ ticket.policy_decision_ref)
      × (result.capability_contract_ref ≡ ticket.capability_contract_ref)
      × (result.capability_contract_hash ≡ ticket.capability_contract_hash)
      × (result.executor_ref ≡ ticket.executor_ref)
      × (result.executor_version ≡ ticket.executor_version)
      × (result.executor_artifact_hash ≡ ticket.executor_artifact_hash)
      × (result.executor_signature_ref ≡ ticket.executor_signature_ref)
      × (result.executor_signing_key_ref ≡ ticket.executor_signing_key_ref)
      × (result.executor_manifest_hash ≡ ticket.executor_manifest_hash)
unfolding validate_result_ticket_binding
bound_fields result ticket h = ground arith

module _ (p : Platform) (uuid : String) (now : ℕ) (policy : PolicyDecision)
    (capability : CapabilityContract) (manifest : ExecutorManifest) (ticket : ExecutionTicket)
    (result : SandboxResult) (evidence : Proof) (resource_ref previous : String) where
  abbrev pub event : LedgerEvent
  event =
      ledger_event_for_success uuid now result evidence resource_ref policy.decision_id
        policy.delta_id

  abbrev pub written : LedgerEvent
  written = sealed p previous event

  module _ (actor_id ticket_uuid : String)
      (made : ticket
        ≡ ticket_for p actor_id ticket_uuid policy capability manifest
            (or_empty manifest.signature_ref))
      (bound : validate_result_ticket_binding result ticket ≡ ok tt) where
    ticket_matches : actor_id ≡ "kernel" → TicketMatches written ticket
    unfolding ledger_event_for_success
    ticket_matches actor = ground (arith, bound_fields result ticket bound)

    capability_matches : CapabilityMatches p written capability
    unfolding ledger_event_for_success
    capability_matches = ground (arith, bound_fields result ticket bound)

    executor_matches :
        validate_executor_manifest p capability manifest ≡ ok tt
        → ExecutorMatches p written manifest
    unfolding ledger_event_for_success validate_executor_manifest
    executor_matches suits = ground (arith, bound_fields result ticket bound)

    policy_matches : policy.capability_id ≡ capability.capability_id → PolicyMatches written policy
    unfolding ledger_event_for_success
    policy_matches same = ground (arith, bound_fields result ticket bound)

    pub grant_matches :
        (given : ApprovalGrant) (k : Kernel) (now_grant : ℕ)
        → Approves now_grant policy capability k given
        → now ≤ given.expires_at
        → GrantMatches written given
    unfolding ledger_event_for_success
    grant_matches given k now_grant approves in_time = ground (
      arith,
      bound_fields result ticket bound,
      approves.run_id,
      approves.delta_id,
      approves.policy_decision_ref,
      approves.capability_id,
    )

    result_matches :
        result.success ≡ true
        → result.output_hash ≡ hash_json p result.output
        → result.policy_decision_ref ≡ policy.decision_id
        → ResultMatches p written result
    unfolding ledger_event_for_success
    result_matches success hash same = ground arith

    proof_matches :
        (proof_uuid : String) (now_proof : ℕ)
        → evidence ≡ proof_for p proof_uuid now_proof result
        → result.policy_decision_ref ≡ policy.decision_id
        → ProofMatches p written result evidence
    unfolding ledger_event_for_success
    proof_matches proof_uuid now_proof proven same = ground arith

    -- The facts behind the event, found in a store.
    pub stands :
        (s : Store) (row : TicketRow) (proof_uuid : String) (now_proof : ℕ)
        → lookup result.ticket_id s.execution_tickets ≡ some row
        → row.payload ≡ ticket
        → lookup result.capability_id s.capability_contracts ≡ some capability
        → lookup result.executor_ref s.executor_manifests ≡ some manifest
        → lookup policy.decision_id s.policy_decisions ≡ some policy
        → lookup result.ticket_id s.sandbox_results ≡ some result
        → lookup evidence.proof_id s.proofs ≡ some evidence
        → actor_id ≡ "kernel"
        → validate_executor_manifest p capability manifest ≡ ok tt
        → policy.capability_id ≡ capability.capability_id
        → result.success ≡ true
        → result.output_hash ≡ hash_json p result.output
        → evidence ≡ proof_for p proof_uuid now_proof result
        → result.policy_decision_ref ≡ policy.decision_id
        → Allows s written policy
        → IsAccounted p s written
    unfolding ledger_event_for_success
    stands s row proof_uuid now_proof t issued c m d r e actor suits same success hash proven refer
          allows =
        record {
          has_proofs = λ none. ground arith;
          ticket = (row, t, subst (TicketMatches written) (sym issued) (ticket_matches actor));
          capability = (capability, c, capability_matches);
          executor = (manifest, m, executor_matches suits);
          policy = (policy, d, policy_matches same, allows);
          result = (
            result,
            r,
            result_matches success hash refer,
            ((evidence, e, proof_matches proof_uuid now_proof proven refer), tt),
          );
        }
