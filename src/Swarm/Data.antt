-- ===== src/Swarm/Data.antt =====
-- The data of crates/moxi-swarm/src/lib.rs, with `SubagentManifest` of moxi-contracts and
-- `EvalSeverity` of moxi-eval. A u32 is a natural number that the functions reduce where they cast.
use essence_agent.Base.{ℕ, String, Bool, Option, List, Eq}
use essence_agent.Contracts.{RiskLevel, Value}

pub data SubagentMode : Type 0 where
  delegate collaborate review monitor : SubagentMode

pub record SubagentManifest : Type 0 where
  pub agent_id : String
  pub agent_version : String
  pub role : String
  pub mode : SubagentMode
  pub allowed_capabilities : List String
  pub required_skills : List String
  pub memory_scopes : List String
  pub max_parallel_tasks : ℕ
  pub ledger_scope : String
  pub policy_profile_ref : Option String

pub data EvalSeverity : Type 0 where
  info low medium high critical : EvalSeverity

pub data SwarmError : Type 0 where
  empty_plan missing_merge_evidence review_not_approved : SwarmError
  unknown_subagent invalid_handoff : String → SwarmError
  -- agent, capability or scope
  capability_not_allowed memory_scope_not_allowed : String → String → SwarmError

pub data SwarmTopology : Type 0 where
  single star hierarchy graph debate : SwarmTopology

pub data AgentMessageKind : Type 0 where
  claim evidence instruction tool_proposal risk_notice review_decision : AgentMessageKind

pub data ReviewDecision : Type 0 where
  approved rejected needs_revision : ReviewDecision

unfoldable pub AgentMessageKind-discrete : Discrete AgentMessageKind
AgentMessageKind-discrete = hlevel

unfoldable pub ReviewDecision-discrete : Discrete ReviewDecision
ReviewDecision-discrete = hlevel

instance unfoldable pub AgentMessageKind-eq : Eq AgentMessageKind
unfolding AgentMessageKind-discrete
AgentMessageKind-eq = record { dec = AgentMessageKind-discrete }

instance unfoldable pub ReviewDecision-eq : Eq ReviewDecision
unfolding ReviewDecision-discrete
ReviewDecision-eq = record { dec = ReviewDecision-discrete }

pub record SwarmBudget : Type 0 where
  pub max_parallel_agents : ℕ
  pub max_messages : ℕ
  pub max_tool_proposals : ℕ
  pub max_latency_ms : ℕ

pub record SwarmTask : Type 0 where
  pub task_id : String
  pub title : String
  pub assigned_agent_id : String
  pub required_capabilities : List String
  pub memory_scopes : List String
  pub risk_level : RiskLevel

pub record SwarmPlan : Type 0 where
  pub plan_id : String
  pub schema_version : ℕ
  pub parent_run_ref : String
  pub topology : SwarmTopology
  pub subagents : List SubagentManifest
  pub tasks : List SwarmTask
  pub budget : SwarmBudget
  pub created_at : ℕ
  pub cannot_authorize : Bool

pub record HandoffContract : Type 0 where
  pub handoff_id : String
  pub parent_run_ref : String
  pub from_agent_id : String
  pub to_agent_id : String
  pub task_id : String
  pub allowed_capabilities : List String
  pub memory_scopes : List String
  pub evidence_required : List String
  pub risk_level : RiskLevel
  pub created_at : ℕ

pub record AgentMessage : Type 0 where
  pub message_id : String
  pub handoff_id : String
  pub from_agent_id : String
  pub to_agent_id : Option String
  pub kind : AgentMessageKind
  pub content : Value
  pub evidence_refs : List String
  pub created_at : ℕ
  pub data_only : Bool

pub record SubagentSidechain : Type 0 where
  pub sidechain_id : String
  pub agent_id : String
  pub handoff_id : String
  pub message_ids : List String
  pub tool_proposal_count : ℕ
  pub evidence_refs : List String
  pub sealed_at : Option ℕ

pub record ReviewGate : Type 0 where
  pub gate_id : String
  pub reviewer_agent_id : String
  pub target_sidechain_id : String
  pub decision : ReviewDecision
  pub reasons : List String
  pub evidence_refs : List String
  pub reviewed_at : ℕ

pub record MergeEvidence : Type 0 where
  pub evidence_id : String
  pub sidechain_id : String
  pub review_gate_id : Option String
  pub evidence_refs : List String
  pub summary : String
  pub accepted : Bool

pub record ParentMerge : Type 0 where
  pub merge_id : String
  pub parent_run_ref : String
  pub evidence_ids : List String
  pub merged_summary : String
  pub risk_level : RiskLevel
  pub cannot_commit_ledger : Bool
  pub created_at : ℕ

pub record SwarmSafetyFinding : Type 0 where
  pub finding_id : String
  pub severity : EvalSeverity
  pub target_ref : String
  pub message : String
  pub blocked : Bool

pub record SwarmController : Type 0 where
  pub parent_run_ref : String
  pub topology : SwarmTopology
  pub subagents : List SubagentManifest
  pub budget : SwarmBudget

-- sha2, serde_json for each type that an id is made from, and `str::to_lowercase`
pub record SwarmPlatform : Type 0 where
  -- `hex::encode(Sha256::digest(bytes))`
  pub sha256_hex : String → String
  pub plan_json : String → List SwarmTask → String
  pub handoff_json : String → String → String → String → String
  pub message_json : String → String → AgentMessageKind → Value → String
  pub sidechain_json : String → String → List String → String
  pub review_json : String → String → ReviewDecision → String
  pub evidence_json : String → Option String → String
  pub merge_json : String → List String → String
  pub finding_json : String → ℕ → String
  pub to_lowercase : String → String
