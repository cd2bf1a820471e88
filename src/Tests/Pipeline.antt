-- ===== src/Tests/Pipeline.antt =====
-- A run, from the proposal of a delta to the event that completes it, state by state.
use essence_agent.Base.{ℕ, none, some, [], ◌∷◌}
use essence_agent.Contracts.{
  PolicyDecision, Decision, RiskLevel, RunStatus, ApprovalGrant, ExecutionTicket, SandboxResult,
  Proof, LedgerEvent, ApprovalPolicy, PermissionMode, RunContract,
}
use essence_agent.Store.{sealed, row_of, Usage, Store}
use essence_agent.Core.Kernel.{
  Kernel, ledger_event_for_success, grant_for, ticket_for, bound_result, contract_for, proof_for,
}
use essence_agent.Tests.World.{plain, reader, reading, intent, delta, input, answer, kernel}

abbrev pub run : RunContract
run = contract_for "1" 10 intent PermissionMode.read_only

abbrev usage : ℕ → ℕ → Usage
usage steps tool_calls = record {
  max_steps = 5;
  max_heartbeats = 5;
  max_tool_calls = 2;
  timeout_ms = 10000;
  steps = steps;
  heartbeats = 1;
  tool_calls = tool_calls;
}

-- the run with the capability and the executor registered, and one heartbeat
abbrev pub running : Kernel
running = record kernel {
  registry = ("file.read", reader) ∷ [];
  executors = ("file.read", reading) ∷ [];
  runs = ("run_1", run) ∷ [];
  store = record kernel.store {
    run_states = ("run_1", RunStatus.running_heartbeat) ∷ [];
    run_usage = ("run_1", usage 0 0) ∷ [];
    capability_contracts = ("file.read", reader) ∷ [];
    executor_manifests = ("reader-1", reading) ∷ [];
  };
}

abbrev pub policy : PolicyDecision
policy = record {
  decision_id = "pd_1";
  run_id = "run_1";
  delta_id = "delta-1";
  actor_id = "kernel";
  capability_id = "file.read";
  decision = Decision.require_approval;
  risk_level = RiskLevel.high;
  reasons = "risk level High requires Human approval" ∷ [];
  required_approval = some (record { approval_policy = ApprovalPolicy.human; approval_ref = none });
  expires_at = 520;
}

abbrev at : RunStatus → Store → Store
at status s = record s { run_states = ("run_1", status) ∷ [] }

abbrev pub proposed : Kernel
proposed = record running {
  store = record (at RunStatus.awaiting_approval running.store) {
    run_usage = ("run_1", usage 1 0) ∷ [];
    policy_decisions = ("pd_1", policy) ∷ [];
  };
}

abbrev pub grant : ApprovalGrant
grant = grant_for "1" 30 policy "alice" "fine"

abbrev pub granted : Kernel
granted = record proposed {
  runs = ("run_1", record run { approval_ref = some "ag_1" }) ∷ [];
  store = record (at RunStatus.running_heartbeat proposed.store) {
    approval_grants = ("ag_1", grant) ∷ [];
  };
}

abbrev pub ticket : ExecutionTicket
ticket = ticket_for plain "kernel" "1" policy reader reading "sig-1"

abbrev pub issued : Kernel
issued = record granted {
  store = record granted.store {
    execution_tickets = ("ticket_1", record { payload = ticket; consumed_at = none }) ∷ [];
  };
}

abbrev pub result : SandboxResult
result = bound_result plain run ticket input (answer ticket)

abbrev pub executed : Kernel
executed = record issued {
  store = record (at RunStatus.observing issued.store) {
    run_usage = ("run_1", usage 1 1) ∷ [];
    execution_tickets = ("ticket_1", record { payload = ticket; consumed_at = some 42 }) ∷ [];
    sandbox_results = ("ticket_1", result) ∷ [];
  };
}

abbrev pub evidence : Proof
evidence = proof_for plain "1" 45 result

abbrev pub verified : Kernel
verified = record executed {
  store = record (at RunStatus.verifying executed.store) { proofs = ("proof_1", evidence) ∷ [] };
}

abbrev pub event : LedgerEvent
event = ledger_event_for_success "1" 50 result evidence "a.txt" policy.decision_id delta.delta_id

abbrev pub sealed_event : LedgerEvent
sealed_event = sealed plain "" event

abbrev pub committed : Kernel
committed = record verified {
  store = record (at RunStatus.completed verified.store) {
    ledger_events = row_of sealed_event ∷ [];
  };
}
