-- ===== src/Contracts/Records.antt =====
-- The facts that the store keeps: crates/moxi-contracts/src/lib.rs.
use essence_agent.Base.{ℕ, String, Bool, Option, List, Eq, string_discrete, nat_discrete}
use essence_agent.Contracts.Enums.{
  RiskLevel, Decision, ApprovalPolicy, Confidence, EventResult, Severity, ErrorCode,
  ExecutorIsolation,
}

-- the compact JSON text of a `serde_json::Value`
abbrev pub Value : Type 0
Value = String

pub record Permissions : Type 0 where
  pub resources : List String
  pub denied : List String

pub record RetryPolicy : Type 0 where
  pub max_retries : ℕ
  pub retry_non_idempotent : Bool

pub record CapabilityContract : Type 0 where
  pub capability_id : String
  pub capability_version : String
  pub provider : String
  pub provider_identity : String
  pub manifest_ref : Option String
  pub signature_ref : Option String
  pub input_schema : Value
  pub output_schema : Value
  pub error_schema : Value
  pub permissions : Permissions
  pub sandbox_profile : String
  pub risk_level : RiskLevel
  pub timeout_ms : ℕ
  pub retry_policy : RetryPolicy
  pub audit_required : Bool
  pub proof_required : Bool
  pub rollback_required : Bool

pub record ExecutorManifest : Type 0 where
  pub executor_id : String
  pub capability_id : String
  pub capability_contract_hash : String
  pub provider_identity : String
  pub executor_version : String
  pub artifact_hash : String
  pub signing_key_ref : String
  pub isolation : ExecutorIsolation
  pub sandbox_profile : String
  pub manifest_ref : Option String
  pub signature_ref : Option String
  pub attestation_ref : Option String

pub record RequiredApproval : Type 0 where
  pub approval_policy : ApprovalPolicy
  pub approval_ref : Option String

pub record ApprovalGrant : Type 0 where
  pub grant_id : String
  pub run_id : String
  pub delta_id : String
  pub policy_decision_ref : String
  pub capability_id : String
  pub approver_id : String
  pub reason : String
  pub granted_at : ℕ
  pub expires_at : ℕ

pub record PolicyDecision : Type 0 where
  pub decision_id : String
  pub run_id : String
  pub delta_id : String
  pub actor_id : String
  pub capability_id : String
  pub decision : Decision
  pub risk_level : RiskLevel
  pub reasons : List String
  pub required_approval : Option RequiredApproval
  pub expires_at : ℕ

pub record ExecutionTicket : Type 0 where
  pub ticket_id : String
  pub run_id : String
  pub delta_id : String
  pub policy_decision_ref : String
  pub capability_contract_ref : String
  pub capability_contract_hash : String
  pub executor_ref : String
  pub executor_version : String
  pub executor_artifact_hash : String
  pub executor_signature_ref : String
  pub executor_signing_key_ref : String
  pub executor_manifest_hash : String
  pub executor_isolation : ExecutorIsolation
  pub retry_policy : RetryPolicy
  pub sandbox_profile_ref : String
  pub actor_id : String
  pub capability_id : String
  pub expires_at : ℕ

pub record RuntimeInputMetadata : Type 0 where
  pub idempotency_key : String
  pub source : String

pub record SandboxInput : Type 0 where
  pub capability_id : String
  pub payload : Value
  pub runtime_metadata : Option RuntimeInputMetadata

pub record StructuredError : Type 0 where
  pub code : ErrorCode
  pub severity : Severity
  pub retryable : Bool
  pub rollback_required : Bool
  pub user_visible_message : String
  pub internal_ref : String

pub record SandboxResult : Type 0 where
  pub ticket_id : String
  pub run_id : String
  pub capability_id : String
  pub policy_decision_ref : String
  pub capability_contract_ref : String
  pub capability_contract_hash : String
  pub executor_ref : String
  pub executor_version : String
  pub executor_artifact_hash : String
  pub executor_signature_ref : String
  pub executor_signing_key_ref : String
  pub executor_manifest_hash : String
  pub gateway_decision_ref : Option String
  pub input_hash : String
  pub success : Bool
  pub output : Value
  pub error : Option StructuredError
  pub started_at : ℕ
  pub finished_at : ℕ
  pub output_hash : String

pub record Proof : Type 0 where
  pub proof_id : String
  pub run_id : String
  pub policy_decision_ref : String
  pub capability_contract_ref : String
  pub capability_contract_hash : String
  pub executor_ref : String
  pub executor_version : String
  pub executor_artifact_hash : String
  pub executor_signature_ref : String
  pub executor_signing_key_ref : String
  pub executor_manifest_hash : String
  pub gateway_decision_ref : Option String
  pub input_hash : String
  pub output_hash : String
  pub source_type : String
  pub source_ref : String
  pub hash : String
  pub claim : String
  pub confidence : Confidence
  pub collected_at : ℕ

pub record LedgerEvent : Type 0 where
  pub ledger_event_id : String
  pub run_id : String
  pub event_type : String
  pub actor_id : String
  pub resource_ref : String
  pub delta_id : String
  pub capability_id : String
  pub policy_decision_ref : String
  pub execution_ticket_ref : String
  pub capability_contract_ref : String
  pub capability_contract_hash : String
  pub executor_ref : String
  pub executor_version : String
  pub executor_artifact_hash : String
  pub executor_signature_ref : String
  pub executor_signing_key_ref : String
  pub executor_manifest_hash : String
  pub gateway_decision_ref : Option String
  pub proof_refs : List String
  pub input_hash : String
  pub output_hash : String
  pub previous_event_hash : String
  pub event_hash : String
  pub result : EventResult
  pub timestamp : ℕ

unfoldable pub CapabilityContract-discrete : Discrete CapabilityContract
CapabilityContract-discrete = hlevel (string_discrete, nat_discrete)

unfoldable pub ExecutorManifest-discrete : Discrete ExecutorManifest
ExecutorManifest-discrete = hlevel (string_discrete, nat_discrete)

unfoldable pub PolicyDecision-discrete : Discrete PolicyDecision
PolicyDecision-discrete = hlevel (string_discrete, nat_discrete)

unfoldable pub ApprovalGrant-discrete : Discrete ApprovalGrant
ApprovalGrant-discrete = hlevel (string_discrete, nat_discrete)

unfoldable pub ExecutionTicket-discrete : Discrete ExecutionTicket
ExecutionTicket-discrete = hlevel (string_discrete, nat_discrete)

unfoldable pub SandboxResult-discrete : Discrete SandboxResult
SandboxResult-discrete = hlevel (string_discrete, nat_discrete)

instance unfoldable pub CapabilityContract-eq : Eq CapabilityContract
CapabilityContract-eq = record { dec = CapabilityContract-discrete }

instance unfoldable pub ExecutorManifest-eq : Eq ExecutorManifest
ExecutorManifest-eq = record { dec = ExecutorManifest-discrete }

instance unfoldable pub PolicyDecision-eq : Eq PolicyDecision
PolicyDecision-eq = record { dec = PolicyDecision-discrete }

instance unfoldable pub ApprovalGrant-eq : Eq ApprovalGrant
ApprovalGrant-eq = record { dec = ApprovalGrant-discrete }

instance unfoldable pub ExecutionTicket-eq : Eq ExecutionTicket
ExecutionTicket-eq = record { dec = ExecutionTicket-discrete }

instance unfoldable pub SandboxResult-eq : Eq SandboxResult
SandboxResult-eq = record { dec = SandboxResult-discrete }
