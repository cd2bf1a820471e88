-- ===== src/Core/Kernel/Commit.antt =====
-- `verify`, `commit`, and the event of a successful call.
use essence_agent.Base.{
  ℕ, String, List, [], ◌∷◌, is_empty, not, string_eq, ◌==◌, ◌!=◌, if◌then◌else◌,
}
use essence_agent.Base.Text.{concat}
use essence_agent.Base.Outcome.Action.{pure, lift, raise_if, or_raise, ◌>>=◌, ◌>>◌}
use essence_agent.Contracts.{
  RunStatus, SandboxResult, SandboxResult-eq, Proof, LedgerEvent, EventResult, EventResult-eq,
  Confidence,
}
use essence_agent.Platform.{Platform, hash_json}
use essence_agent.Store.{
  sandbox_result, execution_ticket, ticket_unknown, transition_run_status, proof_evidence_hash,
  record_proof, proof, append_ledger_event,
}
use essence_agent.Core.Errors
use essence_agent.Core.Errors.{
  policy_denied, result_binding_mismatch, result_not_found, proof_required, proof_not_found,
}
use essence_agent.Core.Manifests.{validate_result_ticket_binding, validate_event_proof_binding}
use essence_agent.Core.Kernel.State.{KernelAction, stored}

-- The evidence that `verify` hashes has the fields and the order of `proof_evidence_hash`.
abbrev pub proof_for : Platform → String → ℕ → SandboxResult → Proof
proof_for p uuid now result = record {
  proof_id = concat ("proof_" ∷ uuid ∷ []);
  run_id = result.run_id;
  policy_decision_ref = result.policy_decision_ref;
  capability_contract_ref = result.capability_contract_ref;
  capability_contract_hash = result.capability_contract_hash;
  executor_ref = result.executor_ref;
  executor_version = result.executor_version;
  executor_artifact_hash = result.executor_artifact_hash;
  executor_signature_ref = result.executor_signature_ref;
  executor_signing_key_ref = result.executor_signing_key_ref;
  executor_manifest_hash = result.executor_manifest_hash;
  gateway_decision_ref = result.gateway_decision_ref;
  input_hash = result.input_hash;
  output_hash = result.output_hash;
  source_type = "tool_output";
  source_ref = result.ticket_id;
  hash = proof_evidence_hash p result;
  claim = concat (result.capability_id ∷ " completed successfully" ∷ []);
  confidence = Confidence.high;
  collected_at = now;
}

unfoldable pub verify : Platform → String → ℕ → SandboxResult → KernelAction Proof
verify p uuid now result = do
  raise_if (not result.success) (policy_denied "sandbox result failed")
  raise_if (result.output_hash != hash_json p result.output) result_binding_mismatch
  found ← stored (sandbox_result result.ticket_id)
  stored_result ← or_raise found (result_not_found result.ticket_id)
  raise_if (stored_result != result) result_binding_mismatch
  issued ← stored (execution_ticket result.ticket_id)
  stored_ticket ← or_raise issued (Errors.store (ticket_unknown result.ticket_id))
  lift (validate_result_ticket_binding result stored_ticket)
  stored (transition_run_status result.run_id RunStatus.verifying)
  let evidence = proof_for p uuid now result
  stored (record_proof evidence)
  pure evidence

-- the loop of `validate_event_proofs`
unfoldable pub check_proofs : LedgerEvent → List String → KernelAction (Unit {0})
check_proofs event [] = pure tt
check_proofs event (proof_ref ∷ rest) =
    let remaining = check_proofs event rest in
    do
      found ← stored (proof proof_ref)
      evidence ← or_raise found (proof_not_found proof_ref)
      lift (validate_event_proof_binding event evidence)
      remaining

unfoldable pub validate_event_proofs : LedgerEvent → KernelAction (Unit {0})
unfolding check_proofs
validate_event_proofs event = do
  raise_if (is_empty event.proof_refs) proof_required
  check_proofs event event.proof_refs

unfoldable pub commit : Platform → LedgerEvent → KernelAction LedgerEvent
unfolding validate_event_proofs
commit p event = do
  if event.result == EventResult.success then validate_event_proofs event else pure tt
  stored (transition_run_status event.run_id RunStatus.persisting)
  committed ← stored (append_ledger_event p event)
  if committed.result == EventResult.success
      then stored (transition_run_status committed.run_id RunStatus.completed)
      else pure tt
  pure committed

unfoldable pub ledger_event_for_success :
    String → ℕ → SandboxResult → Proof → String → String → String → LedgerEvent
ledger_event_for_success uuid now result evidence resource_ref policy_decision_ref delta_id =
    record {
      ledger_event_id = concat ("le_" ∷ uuid ∷ []);
      run_id = result.run_id;
      event_type = "tool.executed";
      actor_id = "kernel";
      resource_ref = resource_ref;
      delta_id = delta_id;
      capability_id = result.capability_id;
      policy_decision_ref = policy_decision_ref;
      execution_ticket_ref = result.ticket_id;
      capability_contract_ref = result.capability_contract_ref;
      capability_contract_hash = result.capability_contract_hash;
      executor_ref = result.executor_ref;
      executor_version = result.executor_version;
      executor_artifact_hash = result.executor_artifact_hash;
      executor_signature_ref = result.executor_signature_ref;
      executor_signing_key_ref = result.executor_signing_key_ref;
      executor_manifest_hash = result.executor_manifest_hash;
      gateway_decision_ref = result.gateway_decision_ref;
      proof_refs = evidence.proof_id ∷ [];
      input_hash = result.input_hash;
      output_hash = result.output_hash;
      previous_event_hash = "";
      event_hash = "";
      result = EventResult.success;
      timestamp = now;
    }
