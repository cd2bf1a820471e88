-- ===== src/Core/Kernel/Approval.antt =====
-- `grant_approval` and the issue of tickets.
use essence_agent.Base.{
  ℕ, ltb, String, Bool, true, false, Option, none, some, [], ◌∷◌, string_eq, ◌!=◌, ◌||◌,
}
use essence_agent.Base.Table.{lookup, update}
use essence_agent.Base.Text.{concat, join}
use essence_agent.Base.Outcome.Action.{
  pure, gets, lift, raise, raise_if, or_raise, modify, ◌>>=◌, ◌>>◌,
}
use essence_agent.Contracts.{
  RunContract, RunStatus, CapabilityContract, ExecutorManifest, PolicyDecision, PolicyDecision-eq,
  Decision, Decision-eq, RequiredApproval, ApprovalGrant, ApprovalGrant-eq, ExecutionTicket,
}
use essence_agent.Platform.{Platform, hash_capability_contract, hash_executor_manifest}
use essence_agent.Store.{
  transition_run_status, policy_decision, record_approval_grant, approval_grant, record_ticket,
}
use essence_agent.Core.Errors.{
  run_not_found, policy_decision_not_found, policy_decision_mismatch, approval_not_required,
  approval_grant_expired, approval_grant_mismatch, policy_denied, approval_required,
  capability_not_found, executor_not_found,
}
use essence_agent.Core.Manifests.{validate_executor_manifest, executor_signature_ref}
use essence_agent.Core.Kernel.State.{KernelAction, stored}
use essence_agent.Core.Kernel.Admission.{enforce_run_timeout}

unfoldable pub validate_recorded_policy_decision : PolicyDecision → KernelAction (Unit {0})
validate_recorded_policy_decision policy = do
  found ← stored (policy_decision policy.decision_id)
  recorded ← or_raise found (policy_decision_not_found policy.decision_id)
  raise_if (recorded != policy) policy_decision_mismatch

abbrev is_none : Option RequiredApproval → Bool
is_none none = true
is_none (some _) = false

abbrev pub grant_for : String → ℕ → PolicyDecision → String → String → ApprovalGrant
grant_for uuid now policy approver_id reason = record {
  grant_id = concat ("ag_" ∷ uuid ∷ []);
  run_id = policy.run_id;
  delta_id = policy.delta_id;
  policy_decision_ref = policy.decision_id;
  capability_id = policy.capability_id;
  approver_id = approver_id;
  reason = reason;
  granted_at = now;
  expires_at = policy.expires_at;
}

abbrev approve_run : ApprovalGrant → RunContract → RunContract
approve_run grant run = record run { approval_ref = some grant.grant_id }

unfoldable pub grant_approval :
    String → ℕ → ℕ → PolicyDecision → String → String → KernelAction ApprovalGrant
unfolding validate_recorded_policy_decision
grant_approval uuid now_expiry now_grant policy approver_id reason = do
  run ← gets (λ k. lookup policy.run_id k.runs)
  or_raise run (run_not_found policy.run_id)
  validate_recorded_policy_decision policy
  raise_if (policy.decision != Decision.require_approval || is_none policy.required_approval)
      (approval_not_required policy.decision_id)
  raise_if (ltb policy.expires_at now_expiry) (approval_grant_expired policy.decision_id)
  let grant = grant_for uuid now_grant policy approver_id reason
  stored (record_approval_grant grant)
  stored (transition_run_status policy.run_id RunStatus.running_heartbeat)
  modify (λ k. record k { runs = update policy.run_id (approve_run grant) k.runs })
  pure grant

unfoldable pub validate_approval_grant :
    ℕ → PolicyDecision → CapabilityContract → ApprovalGrant → KernelAction (Unit {0})
validate_approval_grant now policy capability grant = do
  raise_if
      (grant.run_id != policy.run_id
        || grant.delta_id != policy.delta_id
        || grant.policy_decision_ref != policy.decision_id
        || grant.capability_id != capability.capability_id
        || grant.capability_id != policy.capability_id)
      approval_grant_mismatch
  raise_if (ltb grant.expires_at now) (approval_grant_expired grant.grant_id)
  found ← stored (approval_grant grant.grant_id)
  recorded ← or_raise found approval_grant_mismatch
  raise_if (recorded != grant) approval_grant_mismatch

-- the `match` on `policy.decision`
unfoldable pub authorize :
    ℕ
    → Decision
    → PolicyDecision
    → CapabilityContract
    → Option ApprovalGrant
    → KernelAction (Unit {0})
unfolding validate_approval_grant
authorize now Decision.allow policy capability grant = pure tt
authorize now Decision.deny policy capability grant =
    raise (policy_denied (join "; " policy.reasons))
authorize now Decision.require_approval policy capability none =
    raise (approval_required (join "; " policy.reasons))
authorize now Decision.require_approval policy capability (some grant) =
    validate_approval_grant now policy capability grant

abbrev pub ticket_for :
    Platform
    → String
    → String
    → PolicyDecision
    → CapabilityContract
    → ExecutorManifest
    → String
    → ExecutionTicket
ticket_for p actor_id uuid policy capability manifest signature_ref = record {
  ticket_id = concat ("ticket_" ∷ uuid ∷ []);
  run_id = policy.run_id;
  delta_id = policy.delta_id;
  policy_decision_ref = policy.decision_id;
  capability_contract_ref = capability.capability_id;
  capability_contract_hash = hash_capability_contract p capability;
  executor_ref = manifest.executor_id;
  executor_version = manifest.executor_version;
  executor_artifact_hash = manifest.artifact_hash;
  executor_signature_ref = signature_ref;
  executor_signing_key_ref = manifest.signing_key_ref;
  executor_manifest_hash = hash_executor_manifest p manifest;
  executor_isolation = manifest.isolation;
  retry_policy = capability.retry_policy;
  sandbox_profile_ref = capability.sandbox_profile;
  actor_id = actor_id;
  capability_id = capability.capability_id;
  expires_at = policy.expires_at;
}

unfoldable pub issue_ticket_after_policy :
    Platform
    → String
    → ℕ
    → ℕ
    → PolicyDecision
    → CapabilityContract
    → Option ApprovalGrant
    → KernelAction ExecutionTicket
unfolding authorize validate_recorded_policy_decision
issue_ticket_after_policy p uuid now_timeout now_grant policy capability grant = do
  found ← gets (λ k. lookup policy.run_id k.runs)
  run ← or_raise found (run_not_found policy.run_id)
  enforce_run_timeout p now_timeout run
  validate_recorded_policy_decision policy
  authorize now_grant policy.decision policy capability grant
  raise_if (policy.capability_id != capability.capability_id)
      (capability_not_found policy.capability_id)
  registered ← gets (λ k. lookup capability.capability_id k.executors)
  manifest ← or_raise registered (executor_not_found capability.capability_id)
  lift (validate_executor_manifest p capability manifest)
  actor_id ← gets (λ k. k.actor_id)
  signature_ref ← lift (executor_signature_ref manifest)
  let ticket = ticket_for p actor_id uuid policy capability manifest signature_ref
  stored (record_ticket ticket)
  pure ticket

unfoldable pub issue_ticket :
    Platform → String → ℕ → ℕ → PolicyDecision → CapabilityContract → KernelAction ExecutionTicket
unfolding issue_ticket_after_policy
issue_ticket p uuid now_timeout now_grant policy capability =
    issue_ticket_after_policy p uuid now_timeout now_grant policy capability none

unfoldable pub issue_ticket_with_grant :
    Platform
    → String
    → ℕ
    → ℕ
    → PolicyDecision
    → CapabilityContract
    → ApprovalGrant
    → KernelAction ExecutionTicket
unfolding issue_ticket_after_policy
issue_ticket_with_grant p uuid now_timeout now_grant policy capability grant =
    issue_ticket_after_policy p uuid now_timeout now_grant policy capability (some grant)
