-- ===== src/Core/Manifests.antt =====
-- The kernel's comparisons: of a contract with its schemas, of an executor's manifest with a
-- contract, of a ticket with both, of a result with a ticket, of a proof with an event.
use essence_agent.Base.{
  String, Bool, true, false, Option, none, some, [], ◌∷◌, is_empty, length, not, string_eq,
  option_eq, nat_eq, ◌==◌, ◌!=◌, ◌&&◌, ◌||◌, if◌then◌else◌,
}
use essence_agent.Base.Text.{Codes, codes, trim, trim_text, strip_prefix, is_lower_hex, join}
use essence_agent.Base.Outcome.Pure.{ok, err, fail_if, ◌>>=◌, ◌>>◌}
use essence_agent.Contracts.{
  CapabilityContract, ExecutorManifest, ExecutionTicket, ExecutorIsolation-eq, SandboxResult, Proof,
  LedgerEvent, Value,
}
use essence_agent.Platform.{Platform, hash_capability_contract, hash_executor_manifest}
use essence_agent.Core.Errors.{
  CoreResult, schema_validation, executor_manifest_mismatch, execution_binding_mismatch,
  result_binding_mismatch, proof_binding_mismatch,
}

abbrev compiled : String → Option String → CoreResult (Unit {0})
compiled name none = ok tt
compiled name (some message) = err (schema_validation name message)

unfoldable pub validate_schema : Platform → String → Value → CoreResult (Unit {0})
validate_schema p name schema = compiled name (p.compile_error schema)

unfoldable pub validate_capability_contract : Platform → CapabilityContract → CoreResult (Unit {0})
unfolding validate_schema
validate_capability_contract p contract = do
  validate_schema p "input_schema" contract.input_schema
  validate_schema p "output_schema" contract.output_schema
  validate_schema p "error_schema" contract.error_schema

unfoldable pub validate_payload : Platform → String → Value → Value → CoreResult (Unit {0})
validate_payload p name schema payload = do
  compiled name (p.compile_error schema)
  fail_if (not (is_empty (p.validation_errors schema payload)))
      (schema_validation name (join "; " (p.validation_errors schema payload)))

abbrev all_lower_hex : Codes → Bool
all_lower_hex [] = true
all_lower_hex (c ∷ s) = is_lower_hex c && all_lower_hex s

-- a digit takes one byte, so that 64 bytes of digits are 64 code points
abbrev is_hash_text : Option Codes → Bool
is_hash_text none = false
is_hash_text (some hex) = length hex == 64 && all_lower_hex hex

unfoldable pub is_sha256_ref : String → Bool
is_sha256_ref value = is_hash_text (strip_prefix (codes value) (codes "sha256:"))

-- a reference that is not blank, trimmed
abbrev given : Option String → CoreResult String
given none = err (executor_manifest_mismatch "executor signature ref is required")
given (some signature_ref) =
    if is_empty (codes (trim_text signature_ref))
    then err (executor_manifest_mismatch "executor signature ref is required")
    else ok (trim_text signature_ref)

unfoldable pub executor_signature_ref : ExecutorManifest → CoreResult String
executor_signature_ref manifest = given manifest.signature_ref

unfoldable pub validate_executor_identity : ExecutorManifest → CoreResult (Unit {0})
unfolding executor_signature_ref
validate_executor_identity manifest = do
  fail_if (not (is_sha256_ref manifest.artifact_hash))
      (executor_manifest_mismatch "executor artifact hash must be sha256:<64 lowercase hex chars>")
  fail_if (is_empty (trim (codes manifest.signing_key_ref)))
      (executor_manifest_mismatch "executor signing key ref is required")
  executor_signature_ref manifest
  ok tt

unfoldable pub validate_executor_manifest :
    Platform → CapabilityContract → ExecutorManifest → CoreResult (Unit {0})
unfolding validate_executor_identity
validate_executor_manifest p capability manifest = do
  fail_if (manifest.capability_id != capability.capability_id)
      (executor_manifest_mismatch "capability id mismatch")
  fail_if (manifest.capability_contract_hash != hash_capability_contract p capability)
      (executor_manifest_mismatch "capability contract hash mismatch")
  fail_if (manifest.provider_identity != capability.provider_identity)
      (executor_manifest_mismatch "provider identity mismatch")
  fail_if (manifest.sandbox_profile != capability.sandbox_profile)
      (executor_manifest_mismatch "sandbox profile mismatch")
  validate_executor_identity manifest

unfoldable pub validate_execution_binding :
    Platform → ExecutionTicket → CapabilityContract → ExecutorManifest → CoreResult (Unit {0})
validate_execution_binding p ticket capability manifest = do
  validate_executor_manifest p capability manifest
  signature_ref ← executor_signature_ref manifest
  fail_if
      (ticket.capability_contract_hash != hash_capability_contract p capability
        || ticket.executor_ref != manifest.executor_id
        || ticket.executor_version != manifest.executor_version
        || ticket.executor_artifact_hash != manifest.artifact_hash
        || ticket.executor_signature_ref != signature_ref
        || ticket.executor_signing_key_ref != manifest.signing_key_ref
        || ticket.executor_manifest_hash != hash_executor_manifest p manifest
        || ticket.executor_isolation != manifest.isolation)
      execution_binding_mismatch

unfoldable pub validate_result_ticket_binding :
    SandboxResult → ExecutionTicket → CoreResult (Unit {0})
validate_result_ticket_binding result ticket =
    fail_if
      (result.ticket_id != ticket.ticket_id
        || result.run_id != ticket.run_id
        || result.capability_id != ticket.capability_id
        || result.policy_decision_ref != ticket.policy_decision_ref
        || result.capability_contract_ref != ticket.capability_contract_ref
        || result.capability_contract_hash != ticket.capability_contract_hash
        || result.executor_ref != ticket.executor_ref
        || result.executor_version != ticket.executor_version
        || result.executor_artifact_hash != ticket.executor_artifact_hash
        || result.executor_signature_ref != ticket.executor_signature_ref
        || result.executor_signing_key_ref != ticket.executor_signing_key_ref
        || result.executor_manifest_hash != ticket.executor_manifest_hash)
      result_binding_mismatch

unfoldable pub validate_event_proof_binding : LedgerEvent → Proof → CoreResult (Unit {0})
validate_event_proof_binding event proof =
    fail_if
      (proof.run_id != event.run_id
        || proof.policy_decision_ref != event.policy_decision_ref
        || proof.source_ref != event.execution_ticket_ref
        || proof.capability_contract_ref != event.capability_contract_ref
        || proof.capability_contract_hash != event.capability_contract_hash
        || proof.executor_ref != event.executor_ref
        || proof.executor_version != event.executor_version
        || proof.executor_artifact_hash != event.executor_artifact_hash
        || proof.executor_signature_ref != event.executor_signature_ref
        || proof.executor_signing_key_ref != event.executor_signing_key_ref
        || proof.executor_manifest_hash != event.executor_manifest_hash
        || proof.gateway_decision_ref != event.gateway_decision_ref
        || proof.input_hash != event.input_hash
        || proof.output_hash != event.output_hash)
      proof_binding_mismatch
