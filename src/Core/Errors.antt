-- ===== src/Core/Errors.antt =====
-- `CoreError`.
use essence_agent.Base.{String}
use essence_agent.Base.Outcome.Pure.{Result}
use essence_agent.Contracts.{ExecutorIsolation}
use essence_agent.Store.{StoreError}

pub data CoreError : Type 0 where
  capability_not_found : String → CoreError
  capability_contract_mismatch : CoreError
  executor_not_found : String → CoreError
  executor_isolation_unsupported : ExecutorIsolation → CoreError
  executor_manifest_mismatch : String → CoreError
  execution_binding_mismatch : CoreError
  run_not_found : String → CoreError
  schema_validation : String → String → CoreError
  policy_denied policy_decision_not_found : String → CoreError
  policy_decision_mismatch : CoreError
  approval_required approval_not_required : String → CoreError
  approval_grant_mismatch : CoreError
  approval_grant_expired ticket_expired : String → CoreError
  run_mismatch : CoreError
  run_timed_out : String → CoreError
  executor_result_mismatch : CoreError
  result_not_found : String → CoreError
  result_binding_mismatch proof_required : CoreError
  proof_not_found : String → CoreError
  proof_binding_mismatch : CoreError
  store : StoreError → CoreError
  -- an error of moxi-sandbox, by its message
  sandbox : String → CoreError
  -- not an error of the source: the arithmetic of `DateTime` overflows, and the thread panics
  instant_out_of_range : CoreError

abbrev pub CoreResult : Type 0 → Type 0
CoreResult A = Result CoreError A
