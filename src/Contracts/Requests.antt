-- ===== src/Contracts/Requests.antt =====
-- What a run is asked to do, and what the policy may decide: crates/moxi-contracts/src/lib.rs.
use essence_agent.Base.{ℕ, String, Bool, true, Option, none, some, List, []}
use essence_agent.Contracts.Enums.{
  RiskLevel, PermissionMode, ApprovalPolicy, ResourceType, DeltaState,
}

-- u32 counters and a u64 timeout
pub record Budget : Type 0 where
  pub max_steps : ℕ
  pub max_heartbeats : ℕ
  pub max_tool_calls : ℕ
  pub max_cost_cents : ℕ
  pub timeout_ms : ℕ

abbrev pub default_budget : Budget
default_budget = record {
  max_steps = 20;
  max_heartbeats = 10;
  max_tool_calls = 30;
  max_cost_cents = 100;
  timeout_ms = 10_000;
}

pub record PolicyConfig : Type 0 where
  pub require_declared_capabilities : Bool
  pub denied_capabilities : List String
  pub approval_required_capabilities : List String
  pub denied_resource_patterns : List String
  pub approval_required_resource_patterns : List String
  pub approval_required_at_or_above : Option RiskLevel
  pub deny_at_or_above : Option RiskLevel
  pub approval_policy : ApprovalPolicy
  pub approval_ref : Option String

-- `PolicyConfig::default`
abbrev pub default_policy_config : PolicyConfig
default_policy_config = record {
  require_declared_capabilities = true;
  denied_capabilities = [];
  approval_required_capabilities = [];
  denied_resource_patterns = [];
  approval_required_resource_patterns = [];
  approval_required_at_or_above = some RiskLevel.high;
  deny_at_or_above = none;
  approval_policy = ApprovalPolicy.human;
  approval_ref = none;
}

pub record Intent : Type 0 where
  pub intent_id : String
  pub tenant_id : String
  pub user_id : String
  pub gateway_decision_ref : Option String
  pub goal : String
  pub requested_capabilities : List String
  pub risk_level : RiskLevel
  pub workspace_root : String
  pub budget : Budget

pub record RunContract : Type 0 where
  pub run_id : String
  pub intent_id : String
  pub tenant_id : String
  pub user_id : String
  pub gateway_decision_ref : Option String
  pub risk_level : RiskLevel
  pub permission_mode : PermissionMode
  pub status_ref : String
  pub budget : Budget
  pub required_capabilities : List String
  pub checkpoint_ref : Option String
  pub approval_ref : Option String
  pub ledger_scope : String
  pub created_at : ℕ

pub record DeltaTarget : Type 0 where
  pub resource_type : ResourceType
  pub resource_ref : String

pub record WorldDelta : Type 0 where
  pub delta_id : String
  pub run_id : String
  pub proposed_by : String
  pub capability_id : String
  pub state : DeltaState
  pub target : DeltaTarget
  pub change_summary : String
  pub preconditions : List String
  pub patch_ref : Option String
  pub evidence_refs : List String
  pub risk_level : RiskLevel
  pub rollback_plan_ref : Option String
