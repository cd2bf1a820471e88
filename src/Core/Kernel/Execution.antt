-- ===== src/Core/Kernel/Execution.antt =====
-- `execute`.
use essence_agent.Base.{ℕ, ltb, String, string_eq, ◌!=◌, ◌||◌, if◌then◌else◌}
use essence_agent.Base.Table.{lookup}
use essence_agent.Base.Outcome.Pure.{ok, err}
use essence_agent.Base.Outcome.Action.{pure, gets, lift, raise, raise_if, or_raise, ◌>>=◌, ◌>>◌}
use essence_agent.Contracts.{
  RunContract, RunStatus, CapabilityContract, ExecutorManifest, ExecutionTicket, ExecutionTicket-eq,
  SandboxInput, SandboxResult,
}
use essence_agent.Platform.{Platform, hash_json}
use essence_agent.Store.{
  execution_ticket, ticket_unknown, consume_ticket, record_tool_call, transition_run_status,
  record_sandbox_result,
}
use essence_agent.Core.Errors
use essence_agent.Core.Errors.{
  CoreError, CoreResult, run_not_found, ticket_expired, execution_binding_mismatch,
  capability_not_found, executor_not_found, executor_result_mismatch,
}
use essence_agent.Core.Manifests.{validate_execution_binding, validate_payload}
use essence_agent.Core.Kernel.State.{KernelAction, stored}
use essence_agent.Core.Kernel.Admission.{enforce_run_timeout}

-- what the registered executors answer during a call, by manifest
abbrev pub Executors : Type 0
Executors = ExecutorManifest → ExecutionTicket → SandboxInput → CoreResult SandboxResult

-- the run fails, and the error is returned
abbrev fail_run : {A : Type 0} → String → CoreError → KernelAction A
fail_run run_id error = do stored (transition_run_status run_id RunStatus.failed); raise error

-- the kernel's own account of the call, written over the executor's
abbrev pub bound_result :
    Platform → RunContract → ExecutionTicket → SandboxInput → SandboxResult → SandboxResult
bound_result p run ticket input result = record result {
  policy_decision_ref = ticket.policy_decision_ref;
  capability_contract_ref = ticket.capability_contract_ref;
  capability_contract_hash = ticket.capability_contract_hash;
  executor_ref = ticket.executor_ref;
  executor_version = ticket.executor_version;
  executor_artifact_hash = ticket.executor_artifact_hash;
  executor_signature_ref = ticket.executor_signature_ref;
  executor_signing_key_ref = ticket.executor_signing_key_ref;
  executor_manifest_hash = ticket.executor_manifest_hash;
  gateway_decision_ref = run.gateway_decision_ref;
  input_hash = hash_json p (p.input_json input);
  output_hash = hash_json p result.output;
}

-- `if let Err(error) = validate_payload(...)`, and the record of the result
abbrev record_valid_result :
    ExecutionTicket → SandboxResult → CoreResult (Unit {0}) → KernelAction SandboxResult
record_valid_result ticket result (err error) = fail_run ticket.run_id error
record_valid_result ticket result (ok _) = do
  stored (record_sandbox_result result)
  stored (transition_run_status ticket.run_id RunStatus.observing)
  pure result

-- what `execute` does with the executor's answer
unfoldable pub accept_answer :
    Platform
    → RunContract
    → CapabilityContract
    → ExecutionTicket
    → SandboxInput
    → CoreResult SandboxResult
    → KernelAction SandboxResult
accept_answer p run capability ticket input (err error) = fail_run ticket.run_id error
accept_answer p run capability ticket input (ok result) =
    if result.ticket_id != ticket.ticket_id
      || result.run_id != ticket.run_id
      || result.capability_id != ticket.capability_id
    then fail_run ticket.run_id executor_result_mismatch
    else record_valid_result ticket (bound_result p run ticket input result)
        (validate_payload p "output" capability.output_schema result.output)

-- from the consumption of the ticket to the executor's answer
unfoldable pub run_ticket : ℕ → ExecutionTicket → KernelAction (Unit {0})
run_ticket now_consume ticket = do
  stored (consume_ticket now_consume ticket.ticket_id)
  stored (record_tool_call ticket.run_id)
  stored (transition_run_status ticket.run_id RunStatus.executing)

unfoldable pub execute :
    Platform → Executors → ℕ → ℕ → ℕ → ExecutionTicket → SandboxInput → KernelAction SandboxResult
unfolding run_ticket accept_answer
execute p executors now_timeout now_expiry now_consume ticket input = do
  found ← gets (λ k. lookup ticket.run_id k.runs)
  run ← or_raise found (run_not_found ticket.run_id)
  enforce_run_timeout p now_timeout run
  raise_if (ltb ticket.expires_at now_expiry) (ticket_expired ticket.ticket_id)
  issued ← stored (execution_ticket ticket.ticket_id)
  stored_ticket ← or_raise issued (Errors.store (ticket_unknown ticket.ticket_id))
  raise_if (stored_ticket != ticket) execution_binding_mismatch
  registered ← gets (λ k. lookup ticket.capability_id k.registry)
  capability ← or_raise registered (capability_not_found ticket.capability_id)
  raise_if (input.capability_id != ticket.capability_id) (capability_not_found input.capability_id)
  installed ← gets (λ k. lookup ticket.capability_id k.executors)
  manifest ← or_raise installed (executor_not_found ticket.capability_id)
  lift (validate_execution_binding p ticket capability manifest)
  lift (validate_payload p "input" capability.input_schema input.payload)
  run_ticket now_consume ticket
  accept_answer p run capability ticket input (executors manifest ticket input)
