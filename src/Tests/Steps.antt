-- ===== src/Tests/Steps.antt =====
-- The steps of the run, each a call of the kernel on the state before it.
use essence_agent.Base.{◌≡◌, refl}
use essence_agent.Base.Outcome.Pure.{ok}
use essence_agent.Base.Text
use essence_agent.Base
use essence_agent.Contracts
use essence_agent.Store
use essence_agent.Core.Patterns
use essence_agent.Core.Policy
use essence_agent.Core.Manifests
use essence_agent.Core.Kernel
use essence_agent.Core.Kernel.{
  propose_delta, grant_approval, issue_ticket_with_grant, execute, verify, commit,
}
use essence_agent.Tests.World.{plain, reader, delta, input, executors}
use essence_agent.Tests.Pipeline.{
  running, policy, proposed, grant, granted, ticket, issued, result, executed, evidence, verified,
  event, sealed_event, committed,
}

pub propose_step : propose_delta plain "1" 20 20 "run_1" delta running ≡ (ok policy, proposed)
unfolding propose_delta Base.string_eq Store.get_run_status Store.record_step Kernel.add_timeout
    Policy.evaluate Policy.denial_reasons Patterns.capability_rule_matches
    Patterns.permission_mode_denial Patterns.permission_mode_allows_resource
    Patterns.is_read_resource Text.ends_with Text.to_ascii_lowercase Base.nat_eq
    Patterns.first_matching_resource Policy.approval_reasons Policy.max_risk
    Store.transition_run_status Store.is_allowed_transition Store.record_policy_decision
propose_step = refl

pub grant_step : grant_approval "1" 25 30 policy "alice" "fine" proposed ≡ (ok grant, granted)
unfolding grant_approval Base.string_eq Store.policy_decision Contracts.PolicyDecision-eq
    Contracts.PolicyDecision-discrete Base.nat_discrete Contracts.Decision-eq
    Store.record_approval_grant Store.transition_run_status Store.is_allowed_transition
grant_step = refl

pub issue_step :
    issue_ticket_with_grant plain "1" 35 35 policy reader grant granted ≡ (ok ticket, issued)
unfolding issue_ticket_with_grant Base.string_eq Kernel.enforce_run_timeout Store.get_run_status
    Store.policy_decision Contracts.PolicyDecision-eq Contracts.PolicyDecision-discrete
    Base.nat_discrete Store.approval_grant Contracts.ApprovalGrant-eq
    Contracts.ApprovalGrant-discrete Manifests.validate_executor_manifest Manifests.is_sha256_ref
    Base.nat_eq Text.trim Text.trim_text Store.record_ticket Text.is_whitespace
issue_step = refl

pub execute_step : execute plain executors 40 40 42 ticket input issued ≡ (ok result, executed)
unfolding execute Base.string_eq Kernel.enforce_run_timeout Store.get_run_status
    Store.execution_ticket Contracts.ExecutionTicket-eq Contracts.ExecutionTicket-discrete
    Base.nat_discrete Manifests.validate_execution_binding Manifests.validate_executor_manifest
    Manifests.is_sha256_ref Base.nat_eq Text.trim Text.trim_text Contracts.ExecutorIsolation-eq
    Manifests.validate_payload Store.consume_ticket Store.record_tool_call
    Store.transition_run_status Store.is_allowed_transition Store.record_sandbox_result
    Text.is_whitespace
execute_step = refl

pub verify_step : verify plain "1" 45 result executed ≡ (ok evidence, verified)
unfolding verify Base.string_eq Store.sandbox_result Contracts.SandboxResult-eq
    Contracts.SandboxResult-discrete Base.nat_discrete Store.execution_ticket
    Manifests.validate_result_ticket_binding Store.transition_run_status Store.is_allowed_transition
    Store.record_proof
verify_step = refl

pub commit_step : commit plain event verified ≡ (ok sealed_event, committed)
unfolding commit Contracts.EventResult-eq Kernel.ledger_event_for_success Store.proof Base.string_eq
    Manifests.validate_event_proof_binding Base.option_eq Store.transition_run_status
    Store.is_allowed_transition Store.append_ledger_event
commit_step = refl
