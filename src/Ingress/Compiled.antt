-- ===== src/Ingress/Compiled.antt =====
-- From a request to the contract of its run: `normalize`, `Gateway::admit`, `compile` and the
-- kernel's `admit_with_permission_mode` in turn.
use essence_agent.Base.{◌≤◌, String, true, ◌≡◌, ◌⊎◌, some, is_empty, max}
use essence_agent.Contracts.{rank, RunContract}
use essence_agent.Ingress.Entry.{EntryRequest, NormalizedEntry}
use essence_agent.Ingress.Gateway.{Gateway, TrustedEntry, Redaction}
use essence_agent.Ingress.Reading.{Requires}

-- What the contract of a run has of the request it comes from, of the entry that `normalize` made of
-- it and of the goal of its intent.
pub record Carries (request : EntryRequest) (entry : NormalizedEntry) (trusted : TrustedEntry)
    (goal : String) (contract : RunContract) : Type 0 where
  pub capabilities :
      Requires entry.candidate.requested_capabilities goal contract.required_capabilities
  pub cost : contract.budget.max_cost_cents ≡ request.budget.max_cost_cents
  pub tenant_id : contract.tenant_id ≡ request.context.tenant_id
  pub user_id : contract.user_id ≡ request.context.user_id
  pub permission_mode : contract.permission_mode ≡ request.permission_mode
  pub gateway_decision_ref :
      contract.gateway_decision_ref ≡ some trusted.gateway_decision.gateway_decision_id
  pub risk_kept : rank request.risk_level ≤ rank contract.risk_level
  pub secrets_raise :
      (is_empty trusted.gateway_decision.redactions ≡ true) ⊎ (1 ≤ rank contract.risk_level)
  pub steps : contract.budget.max_steps ≡ max request.budget.max_steps 1
  pub heartbeats : contract.budget.max_heartbeats ≡ max request.budget.max_heartbeats 1
  pub tool_calls : contract.budget.max_tool_calls ≡ max request.budget.max_tool_calls 1
  pub timeout : contract.budget.timeout_ms ≡ max request.budget.timeout_ms 1
