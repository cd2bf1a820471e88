-- ===== src/Store/Bindings.antt =====
-- The audit's comparisons of a ledger event with each fact that it refers to.
use essence_agent.Base.{
  String, Bool, true, Option, none, some, Eq, string_eq, option_eq, bool_eq, ◌!=◌, ◌==◌, ◌&&◌, leb,
  ◌∷◌, [],
}
use essence_agent.Base.Outcome.Pure.{Result, fail_if, ◌>>◌}
use essence_agent.Contracts.{
  CapabilityContract, ExecutorManifest, ApprovalGrant, PolicyDecision, ExecutionTicket,
  SandboxResult, Proof, LedgerEvent,
}
use essence_agent.Platform.{Platform, hash_json, hash_capability_contract, hash_executor_manifest}
use essence_agent.Store.State.{
  StoreError, Shown, text, optional, flag, ledger_audit_binding_mismatch,
  ledger_audit_proof_hash_mismatch,
}

-- `Debug`, by which a mismatch is reported
pub record Debug (A : Type 0) : Type 0 where
  pub shown : A → Shown

instance abbrev pub string_debug : Debug String
string_debug = record { shown = text }

instance abbrev pub option_debug : Debug (Option String)
option_debug = record { shown = optional }

instance abbrev pub bool_debug : Debug Bool
bool_debug = record { shown = flag }

abbrev pub Checked : Type 0
Checked = Result StoreError (Unit {0})

unfoldable pub audit_expect_eq :
    {A : Type 0} ⦃e : Eq A⦄ ⦃d : Debug A⦄ → LedgerEvent → String → A → A → Checked
audit_expect_eq ⦃e⦄ ⦃d⦄ event field expected actual =
    fail_if (expected != actual) (
      ledger_audit_binding_mismatch event.ledger_event_id field (d.shown expected) (d.shown actual))

unfoldable pub verify_event_ticket_binding : LedgerEvent → ExecutionTicket → Checked
verify_event_ticket_binding event ticket = do
  audit_expect_eq event "ticket.ticket_id" event.execution_ticket_ref ticket.ticket_id
  audit_expect_eq event "ticket.run_id" event.run_id ticket.run_id
  audit_expect_eq event "ticket.delta_id" event.delta_id ticket.delta_id
  audit_expect_eq event "ticket.policy_decision_ref" event.policy_decision_ref
      ticket.policy_decision_ref
  audit_expect_eq event "ticket.capability_id" event.capability_id ticket.capability_id
  audit_expect_eq event "ticket.capability_contract_ref" event.capability_contract_ref
      ticket.capability_contract_ref
  audit_expect_eq event "ticket.capability_contract_hash" event.capability_contract_hash
      ticket.capability_contract_hash
  audit_expect_eq event "ticket.executor_ref" event.executor_ref ticket.executor_ref
  audit_expect_eq event "ticket.executor_version" event.executor_version ticket.executor_version
  audit_expect_eq event "ticket.executor_artifact_hash" event.executor_artifact_hash
      ticket.executor_artifact_hash
  audit_expect_eq event "ticket.executor_signature_ref" event.executor_signature_ref
      ticket.executor_signature_ref
  audit_expect_eq event "ticket.executor_signing_key_ref" event.executor_signing_key_ref
      ticket.executor_signing_key_ref
  audit_expect_eq event "ticket.executor_manifest_hash" event.executor_manifest_hash
      ticket.executor_manifest_hash
  audit_expect_eq event "ticket.actor_id" event.actor_id ticket.actor_id

unfoldable pub verify_event_capability_binding :
    Platform → LedgerEvent → CapabilityContract → Checked
verify_event_capability_binding p event capability = do
  audit_expect_eq event "capability.capability_id" event.capability_id capability.capability_id
  audit_expect_eq event "capability.capability_id_ref" event.capability_contract_ref
      capability.capability_id
  audit_expect_eq event "capability.capability_contract_hash" event.capability_contract_hash
      (hash_capability_contract p capability)

-- `signature_ref.as_deref().unwrap_or_default()`
abbrev pub or_empty : Option String → String
or_empty none = ""
or_empty (some s) = s

unfoldable pub verify_event_executor_binding : Platform → LedgerEvent → ExecutorManifest → Checked
verify_event_executor_binding p event manifest = do
  audit_expect_eq event "executor.executor_id" event.executor_ref manifest.executor_id
  audit_expect_eq event "executor.capability_id" event.capability_id manifest.capability_id
  audit_expect_eq event "executor.executor_version" event.executor_version manifest.executor_version
  audit_expect_eq event "executor.artifact_hash" event.executor_artifact_hash manifest.artifact_hash
  audit_expect_eq event "executor.signing_key_ref" event.executor_signing_key_ref
      manifest.signing_key_ref
  audit_expect_eq event "executor.signature_ref" event.executor_signature_ref
      (or_empty manifest.signature_ref)
  audit_expect_eq event "executor.capability_contract_hash" event.capability_contract_hash
      manifest.capability_contract_hash
  audit_expect_eq event "executor.executor_manifest_hash" event.executor_manifest_hash
      (hash_executor_manifest p manifest)

unfoldable pub verify_event_policy_binding : LedgerEvent → PolicyDecision → Checked
verify_event_policy_binding event policy = do
  audit_expect_eq event "policy_decision.decision_id" event.policy_decision_ref policy.decision_id
  audit_expect_eq event "policy_decision.run_id" event.run_id policy.run_id
  audit_expect_eq event "policy_decision.delta_id" event.delta_id policy.delta_id
  audit_expect_eq event "policy_decision.capability_id" event.capability_id policy.capability_id

unfoldable pub approval_grant_matches_event : LedgerEvent → ApprovalGrant → Bool
approval_grant_matches_event event grant =
    grant.run_id == event.run_id
    && grant.delta_id == event.delta_id
    && grant.policy_decision_ref == event.policy_decision_ref
    && grant.capability_id == event.capability_id
    && leb event.timestamp grant.expires_at

unfoldable pub verify_event_result_binding : Platform → LedgerEvent → SandboxResult → Checked
verify_event_result_binding p event result = do
  audit_expect_eq event "sandbox_result.ticket_id" event.execution_ticket_ref result.ticket_id
  audit_expect_eq event "sandbox_result.run_id" event.run_id result.run_id
  audit_expect_eq event "sandbox_result.capability_id" event.capability_id result.capability_id
  audit_expect_eq event "sandbox_result.policy_decision_ref" event.policy_decision_ref
      result.policy_decision_ref
  audit_expect_eq event "sandbox_result.capability_contract_ref" event.capability_contract_ref
      result.capability_contract_ref
  audit_expect_eq event "sandbox_result.capability_contract_hash" event.capability_contract_hash
      result.capability_contract_hash
  audit_expect_eq event "sandbox_result.executor_ref" event.executor_ref result.executor_ref
  audit_expect_eq event "sandbox_result.executor_version" event.executor_version
      result.executor_version
  audit_expect_eq event "sandbox_result.executor_artifact_hash" event.executor_artifact_hash
      result.executor_artifact_hash
  audit_expect_eq event "sandbox_result.executor_signature_ref" event.executor_signature_ref
      result.executor_signature_ref
  audit_expect_eq event "sandbox_result.executor_signing_key_ref" event.executor_signing_key_ref
      result.executor_signing_key_ref
  audit_expect_eq event "sandbox_result.executor_manifest_hash" event.executor_manifest_hash
      result.executor_manifest_hash
  audit_expect_eq event "sandbox_result.gateway_decision_ref" event.gateway_decision_ref
      result.gateway_decision_ref
  audit_expect_eq event "sandbox_result.input_hash" event.input_hash result.input_hash
  audit_expect_eq event "sandbox_result.output_hash" event.output_hash result.output_hash
  audit_expect_eq event "sandbox_result.success" true result.success
  audit_expect_eq event "sandbox_result.output_hash" (hash_json p result.output) result.output_hash

unfoldable pub verify_event_proof_binding : LedgerEvent → Proof → Checked
verify_event_proof_binding event proof = do
  audit_expect_eq event "proof.run_id" event.run_id proof.run_id
  audit_expect_eq event "proof.policy_decision_ref" event.policy_decision_ref
      proof.policy_decision_ref
  audit_expect_eq event "proof.source_ref" event.execution_ticket_ref proof.source_ref
  audit_expect_eq event "proof.capability_contract_ref" event.capability_contract_ref
      proof.capability_contract_ref
  audit_expect_eq event "proof.capability_contract_hash" event.capability_contract_hash
      proof.capability_contract_hash
  audit_expect_eq event "proof.executor_ref" event.executor_ref proof.executor_ref
  audit_expect_eq event "proof.executor_version" event.executor_version proof.executor_version
  audit_expect_eq event "proof.executor_artifact_hash" event.executor_artifact_hash
      proof.executor_artifact_hash
  audit_expect_eq event "proof.executor_signature_ref" event.executor_signature_ref
      proof.executor_signature_ref
  audit_expect_eq event "proof.executor_signing_key_ref" event.executor_signing_key_ref
      proof.executor_signing_key_ref
  audit_expect_eq event "proof.executor_manifest_hash" event.executor_manifest_hash
      proof.executor_manifest_hash
  audit_expect_eq event "proof.gateway_decision_ref" event.gateway_decision_ref
      proof.gateway_decision_ref
  audit_expect_eq event "proof.input_hash" event.input_hash proof.input_hash
  audit_expect_eq event "proof.output_hash" event.output_hash proof.output_hash
  audit_expect_eq event "proof.source_type" "tool_output" proof.source_type

unfoldable pub proof_evidence_hash : Platform → SandboxResult → String
proof_evidence_hash p result = hash_json p (
    p.object_json (
      ("ticket_id", some result.ticket_id)
      ∷ ("run_id", some result.run_id)
      ∷ ("capability_id", some result.capability_id)
      ∷ ("policy_decision_ref", some result.policy_decision_ref)
      ∷ ("capability_contract_ref", some result.capability_contract_ref)
      ∷ ("capability_contract_hash", some result.capability_contract_hash)
      ∷ ("executor_ref", some result.executor_ref)
      ∷ ("executor_version", some result.executor_version)
      ∷ ("executor_artifact_hash", some result.executor_artifact_hash)
      ∷ ("executor_signature_ref", some result.executor_signature_ref)
      ∷ ("executor_signing_key_ref", some result.executor_signing_key_ref)
      ∷ ("executor_manifest_hash", some result.executor_manifest_hash)
      ∷ ("gateway_decision_ref", result.gateway_decision_ref)
      ∷ ("input_hash", some result.input_hash)
      ∷ ("output_hash", some result.output_hash)
      ∷ []))

unfoldable pub verify_proof_evidence_hash : Platform → LedgerEvent → SandboxResult → Proof → Checked
verify_proof_evidence_hash p event result proof =
    fail_if (proof.hash != proof_evidence_hash p result) (
      ledger_audit_proof_hash_mismatch event.ledger_event_id proof.proof_id
        (proof_evidence_hash p result) proof.hash)
