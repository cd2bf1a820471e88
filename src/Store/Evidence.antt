-- ===== src/Store/Evidence.antt =====
-- What a fact has in common with the event that refers to it, stated apart from the code, and that
-- the audit's comparisons accept just that.
use essence_agent.Base.{◌≡◌, ◌↔◌, ◌≤◌, true, arith, string_eq, option_eq, bool_eq}
use essence_agent.Base.Outcome.Pure.{ok}
use essence_agent.Contracts.{
  CapabilityContract, ExecutorManifest, ApprovalGrant, PolicyDecision, ExecutionTicket,
  SandboxResult, Proof, LedgerEvent,
}
use essence_agent.Platform.{Platform, hash_json, hash_capability_contract, hash_executor_manifest}
use essence_agent.Store.{
  or_empty, audit_expect_eq, verify_event_ticket_binding, verify_event_capability_binding,
  verify_event_executor_binding, verify_event_policy_binding, approval_grant_matches_event,
  verify_event_result_binding, verify_event_proof_binding, verify_proof_evidence_hash,
  proof_evidence_hash,
}

pub record TicketMatches (event : LedgerEvent) (ticket : ExecutionTicket) : Type 0 where
  pub ticket_id : event.execution_ticket_ref ≡ ticket.ticket_id
  pub run_id : event.run_id ≡ ticket.run_id
  pub delta_id : event.delta_id ≡ ticket.delta_id
  pub policy_decision_ref : event.policy_decision_ref ≡ ticket.policy_decision_ref
  pub capability_id : event.capability_id ≡ ticket.capability_id
  pub capability_contract_ref : event.capability_contract_ref ≡ ticket.capability_contract_ref
  pub capability_contract_hash : event.capability_contract_hash ≡ ticket.capability_contract_hash
  pub executor_ref : event.executor_ref ≡ ticket.executor_ref
  pub executor_version : event.executor_version ≡ ticket.executor_version
  pub executor_artifact_hash : event.executor_artifact_hash ≡ ticket.executor_artifact_hash
  pub executor_signature_ref : event.executor_signature_ref ≡ ticket.executor_signature_ref
  pub executor_signing_key_ref : event.executor_signing_key_ref ≡ ticket.executor_signing_key_ref
  pub executor_manifest_hash : event.executor_manifest_hash ≡ ticket.executor_manifest_hash
  pub actor_id : event.actor_id ≡ ticket.actor_id

pub record CapabilityMatches (p : Platform) (event : LedgerEvent) (capability : CapabilityContract)
    : Type 0 where
  pub capability_id : event.capability_id ≡ capability.capability_id
  pub contract_ref : event.capability_contract_ref ≡ capability.capability_id
  pub contract_hash : event.capability_contract_hash ≡ hash_capability_contract p capability

pub record ExecutorMatches (p : Platform) (event : LedgerEvent) (manifest : ExecutorManifest)
    : Type 0 where
  pub executor_id : event.executor_ref ≡ manifest.executor_id
  pub capability_id : event.capability_id ≡ manifest.capability_id
  pub executor_version : event.executor_version ≡ manifest.executor_version
  pub artifact_hash : event.executor_artifact_hash ≡ manifest.artifact_hash
  pub signing_key_ref : event.executor_signing_key_ref ≡ manifest.signing_key_ref
  pub signature_ref : event.executor_signature_ref ≡ or_empty manifest.signature_ref
  pub contract_hash : event.capability_contract_hash ≡ manifest.capability_contract_hash
  pub manifest_hash : event.executor_manifest_hash ≡ hash_executor_manifest p manifest

pub record PolicyMatches (event : LedgerEvent) (policy : PolicyDecision) : Type 0 where
  pub decision_id : event.policy_decision_ref ≡ policy.decision_id
  pub run_id : event.run_id ≡ policy.run_id
  pub delta_id : event.delta_id ≡ policy.delta_id
  pub capability_id : event.capability_id ≡ policy.capability_id

pub record GrantMatches (event : LedgerEvent) (grant : ApprovalGrant) : Type 0 where
  pub run_id : grant.run_id ≡ event.run_id
  pub delta_id : grant.delta_id ≡ event.delta_id
  pub policy_decision_ref : grant.policy_decision_ref ≡ event.policy_decision_ref
  pub capability_id : grant.capability_id ≡ event.capability_id
  pub in_time : event.timestamp ≤ grant.expires_at

pub record ResultMatches (p : Platform) (event : LedgerEvent) (result : SandboxResult)
    : Type 0 where
  pub ticket_id : event.execution_ticket_ref ≡ result.ticket_id
  pub run_id : event.run_id ≡ result.run_id
  pub capability_id : event.capability_id ≡ result.capability_id
  pub policy_decision_ref : event.policy_decision_ref ≡ result.policy_decision_ref
  pub capability_contract_ref : event.capability_contract_ref ≡ result.capability_contract_ref
  pub capability_contract_hash : event.capability_contract_hash ≡ result.capability_contract_hash
  pub executor_ref : event.executor_ref ≡ result.executor_ref
  pub executor_version : event.executor_version ≡ result.executor_version
  pub executor_artifact_hash : event.executor_artifact_hash ≡ result.executor_artifact_hash
  pub executor_signature_ref : event.executor_signature_ref ≡ result.executor_signature_ref
  pub executor_signing_key_ref : event.executor_signing_key_ref ≡ result.executor_signing_key_ref
  pub executor_manifest_hash : event.executor_manifest_hash ≡ result.executor_manifest_hash
  pub gateway_decision_ref : event.gateway_decision_ref ≡ result.gateway_decision_ref
  pub input_hash : event.input_hash ≡ result.input_hash
  pub output_hash : event.output_hash ≡ result.output_hash
  pub success : true ≡ result.success
  pub rehashed : hash_json p result.output ≡ result.output_hash

pub record ProofMatches (p : Platform) (event : LedgerEvent) (result : SandboxResult)
    (proof : Proof) : Type 0 where
  pub run_id : event.run_id ≡ proof.run_id
  pub policy_decision_ref : event.policy_decision_ref ≡ proof.policy_decision_ref
  pub source_ref : event.execution_ticket_ref ≡ proof.source_ref
  pub capability_contract_ref : event.capability_contract_ref ≡ proof.capability_contract_ref
  pub capability_contract_hash : event.capability_contract_hash ≡ proof.capability_contract_hash
  pub executor_ref : event.executor_ref ≡ proof.executor_ref
  pub executor_version : event.executor_version ≡ proof.executor_version
  pub executor_artifact_hash : event.executor_artifact_hash ≡ proof.executor_artifact_hash
  pub executor_signature_ref : event.executor_signature_ref ≡ proof.executor_signature_ref
  pub executor_signing_key_ref : event.executor_signing_key_ref ≡ proof.executor_signing_key_ref
  pub executor_manifest_hash : event.executor_manifest_hash ≡ proof.executor_manifest_hash
  pub gateway_decision_ref : event.gateway_decision_ref ≡ proof.gateway_decision_ref
  pub input_hash : event.input_hash ≡ proof.input_hash
  pub output_hash : event.output_hash ≡ proof.output_hash
  pub source_type : "tool_output" ≡ proof.source_type
  pub hash : proof.hash ≡ proof_evidence_hash p result

pub ticket_iff :
    (event : LedgerEvent) (ticket : ExecutionTicket)
    → (verify_event_ticket_binding event ticket ≡ ok tt) ↔ TicketMatches event ticket
unfolding verify_event_ticket_binding audit_expect_eq
ticket_iff event ticket = (λ h. ground arith, λ h. ground arith)

pub capability_iff :
    (p : Platform) (event : LedgerEvent) (capability : CapabilityContract)
    → (verify_event_capability_binding p event capability ≡ ok tt)
      ↔ CapabilityMatches p event capability
unfolding verify_event_capability_binding audit_expect_eq
capability_iff p event capability = (λ h. ground arith, λ h. ground arith)

pub executor_iff :
    (p : Platform) (event : LedgerEvent) (manifest : ExecutorManifest)
    → (verify_event_executor_binding p event manifest ≡ ok tt) ↔ ExecutorMatches p event manifest
unfolding verify_event_executor_binding audit_expect_eq
executor_iff p event manifest = (λ h. ground arith, λ h. ground arith)

pub policy_iff :
    (event : LedgerEvent) (policy : PolicyDecision)
    → (verify_event_policy_binding event policy ≡ ok tt) ↔ PolicyMatches event policy
unfolding verify_event_policy_binding audit_expect_eq
policy_iff event policy = (λ h. ground arith, λ h. ground arith)

pub grant_iff :
    (event : LedgerEvent) (grant : ApprovalGrant)
    → (approval_grant_matches_event event grant ≡ true) ↔ GrantMatches event grant
unfolding approval_grant_matches_event
grant_iff event grant = (λ h. ground arith, λ h. ground arith)

pub result_iff :
    (p : Platform) (event : LedgerEvent) (result : SandboxResult)
    → (verify_event_result_binding p event result ≡ ok tt) ↔ ResultMatches p event result
unfolding verify_event_result_binding audit_expect_eq
result_iff p event result = (λ h. ground arith, λ h. ground arith)

pub proof_iff :
    (p : Platform) (event : LedgerEvent) (result : SandboxResult) (proof : Proof)
    → ((verify_event_proof_binding event proof ≡ ok tt)
        × (verify_proof_evidence_hash p event result proof ≡ ok tt))
      ↔ ProofMatches p event result proof
unfolding verify_event_proof_binding verify_proof_evidence_hash audit_expect_eq
proof_iff p event result proof = (λ h. ground arith, λ h. (ground arith, ground arith))
