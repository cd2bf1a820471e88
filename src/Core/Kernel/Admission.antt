-- ===== src/Core/Kernel/Admission.antt =====
-- `admit`, `start_heartbeat`, `enforce_run_timeout` and `propose_delta`.
use essence_agent.Base.{
  ℕ, String, Option, none, some, leb, min, string_eq, ◌!=◌, if◌then◌else◌, [], ◌∷◌,
}
use essence_agent.Base.Table.{lookup, insert}
use essence_agent.Base.Text.{concat}
use essence_agent.Base.Outcome.Action.{pure, gets, raise, raise_if, or_raise, modify, ◌>>=◌, ◌>>◌}
use essence_agent.Contracts.{
  Intent, PermissionMode, RunContract, RunStatus, WorldDelta, CapabilityContract, PolicyDecision,
  Decision,
}
use essence_agent.Platform.{Platform}
use essence_agent.Store.{
  i64_max, initialize_run_budget, transition_run_status, record_heartbeat, record_step,
  get_run_status, record_policy_decision,
}
use essence_agent.Core.Errors.{
  run_not_found, run_timed_out, run_mismatch, capability_not_found, instant_out_of_range,
}
use essence_agent.Core.Policy.{PolicyEvaluation, evaluate}
use essence_agent.Core.Kernel.State.{KernelAction, stored, checked_add, add_timeout}

abbrev pub contract_for : String → ℕ → Intent → PermissionMode → RunContract
contract_for uuid now intent permission_mode =
    let run_id = concat ("run_" ∷ uuid ∷ []) in
    record {
      run_id = run_id;
      intent_id = intent.intent_id;
      tenant_id = intent.tenant_id;
      user_id = intent.user_id;
      gateway_decision_ref = intent.gateway_decision_ref;
      risk_level = intent.risk_level;
      permission_mode = permission_mode;
      status_ref = concat ("state_" ∷ run_id ∷ []);
      budget = intent.budget;
      required_capabilities = intent.requested_capabilities;
      checkpoint_ref = none;
      approval_ref = none;
      ledger_scope = "run";
      created_at = now;
    }

unfoldable pub admit_with_permission_mode :
    String → ℕ → Intent → PermissionMode → KernelAction RunContract
admit_with_permission_mode uuid now intent permission_mode = do
  let contract = contract_for uuid now intent permission_mode
  stored (initialize_run_budget contract.run_id contract.budget)
  stored (transition_run_status contract.run_id RunStatus.admitted)
  modify (λ k. record k { runs = insert contract.run_id contract k.runs })
  pure contract

unfoldable pub admit : String → ℕ → Intent → KernelAction RunContract
unfolding admit_with_permission_mode
admit uuid now intent = admit_with_permission_mode uuid now intent PermissionMode.read_only

unfoldable pub start_heartbeat : String → KernelAction (Unit {0})
start_heartbeat run_id = do
  run ← gets (λ k. lookup run_id k.runs)
  or_raise run (run_not_found run_id)
  stored (transition_run_status run_id RunStatus.running_heartbeat)
  stored (record_heartbeat run_id)

-- the deadline, if it can be represented, has passed
abbrev check_deadline : ℕ → RunContract → Option ℕ → KernelAction (Unit {0})
check_deadline now run none = pure tt
check_deadline now run (some deadline) =
    if leb deadline now
    then (do
      stored (transition_run_status run.run_id RunStatus.timed_out)
      raise (run_timed_out run.run_id))
    else pure tt

-- the `match` on the run's status
abbrev check_status : Platform → ℕ → RunContract → RunStatus → KernelAction (Unit {0})
check_status p now run RunStatus.timed_out = raise (run_timed_out run.run_id)
check_status p now run RunStatus.completed = pure tt
check_status p now run RunStatus.failed = pure tt
check_status p now run RunStatus.cancelled = pure tt
check_status p now run RunStatus.blocked = pure tt
check_status p now run RunStatus.rolled_back = pure tt
check_status p now run _ =
    check_deadline now run (checked_add p run.created_at (min run.budget.timeout_ms i64_max))

unfoldable pub enforce_run_timeout : Platform → ℕ → RunContract → KernelAction (Unit {0})
enforce_run_timeout p now run = do
  found ← stored (get_run_status run.run_id)
  status ← or_raise found (run_not_found run.run_id)
  check_status p now run status

-- the run's status after a decision that does not allow the delta
unfoldable pub record_decision_status : String → Decision → KernelAction (Unit {0})
record_decision_status run_id Decision.deny =
    stored (transition_run_status run_id RunStatus.blocked)
record_decision_status run_id Decision.require_approval =
    stored (transition_run_status run_id RunStatus.awaiting_approval)
record_decision_status run_id Decision.allow = pure tt

abbrev pub decision_for :
    String
    → String
    → RunContract
    → WorldDelta
    → CapabilityContract
    → PolicyEvaluation
    → ℕ
    → PolicyDecision
decision_for actor_id uuid run delta capability evaluation expires_at = record {
  decision_id = concat ("pd_" ∷ uuid ∷ []);
  run_id = run.run_id;
  delta_id = delta.delta_id;
  actor_id = actor_id;
  capability_id = capability.capability_id;
  decision = evaluation.decision;
  risk_level = evaluation.risk_level;
  reasons = evaluation.reasons;
  required_approval = evaluation.required_approval;
  expires_at = expires_at;
}

-- The policy reads nothing of the delta's `state`, which the source sets before it is dropped.
unfoldable pub propose_delta :
    Platform → String → ℕ → ℕ → String → WorldDelta → KernelAction PolicyDecision
unfolding enforce_run_timeout record_decision_status
propose_delta p uuid now_timeout now_expiry run_id delta = do
  found ← gets (λ k. lookup run_id k.runs)
  run ← or_raise found (run_not_found run_id)
  enforce_run_timeout p now_timeout run
  raise_if (delta.run_id != run.run_id) run_mismatch
  stored (record_step run_id)
  registered ← gets (λ k. lookup delta.capability_id k.registry)
  capability ← or_raise registered (capability_not_found delta.capability_id)
  config ← gets (λ k. k.policy_config)
  actor_id ← gets (λ k. k.actor_id)
  expires_at ← or_raise (add_timeout p now_expiry capability.timeout_ms) instant_out_of_range
  let policy =
      decision_for actor_id uuid run delta capability (evaluate config run capability delta)
        expires_at
  record_decision_status run_id policy.decision
  stored (record_policy_decision policy)
  pure policy
