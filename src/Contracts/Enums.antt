-- ===== src/Contracts/Enums.antt =====
-- The enumerations of crates/moxi-contracts/src/lib.rs.
use essence_agent.Base.{Bool, ℕ, leb, Eq}

pub data RiskLevel : Type 0 where
  low medium high critical : RiskLevel

-- the derived `PartialOrd`: by the order of the variants
abbrev pub rank : RiskLevel → ℕ
rank RiskLevel.low = 0
rank RiskLevel.medium = 1
rank RiskLevel.high = 2
rank RiskLevel.critical = 3

-- `a >= b`
abbrev pub at_least : RiskLevel → RiskLevel → Bool
at_least a b = leb (rank b) (rank a)

pub data PermissionMode : Type 0 where
  read_only workspace_write networked privileged : PermissionMode

pub data Decision : Type 0 where
  allow deny require_approval : Decision

pub data RunStatus : Type 0 where
  created admitted running_heartbeat awaiting_approval executing observing verifying persisting :
      RunStatus
  completed failed timed_out cancelled blocked rolled_back : RunStatus

pub data ResourceType : Type 0 where
  file network memory workflow plugin credential : ResourceType

pub data DeltaState : Type 0 where
  draft policy_checked approved rejected executing observed verified committed rolled_back :
      DeltaState

pub data ApprovalPolicy : Type 0 where
  human quorum admin none : ApprovalPolicy

pub data Confidence : Type 0 where
  low medium high : Confidence

pub data EventResult : Type 0 where
  success failed blocked : EventResult

pub data Severity : Type 0 where
  info warn error critical : Severity

pub data ErrorCode : Type 0 where
  user_input_error policy_denied safety_blocked model_error tool_error plugin_error : ErrorCode
  resource_limit dependency_error system_error : ErrorCode

pub data ExecutorIsolation : Type 0 where
  in_process_trusted process_sandbox remote_sandbox browser_sandbox model_gateway plugin_host :
      ExecutorIsolation

unfoldable pub RiskLevel-discrete : Discrete RiskLevel
RiskLevel-discrete = hlevel

unfoldable pub Decision-discrete : Discrete Decision
Decision-discrete = hlevel

unfoldable pub RunStatus-discrete : Discrete RunStatus
RunStatus-discrete = hlevel

unfoldable pub EventResult-discrete : Discrete EventResult
EventResult-discrete = hlevel

unfoldable pub ApprovalPolicy-discrete : Discrete ApprovalPolicy
ApprovalPolicy-discrete = hlevel

unfoldable pub ExecutorIsolation-discrete : Discrete ExecutorIsolation
ExecutorIsolation-discrete = hlevel

unfoldable pub Confidence-discrete : Discrete Confidence
Confidence-discrete = hlevel

instance unfoldable pub RunStatus-eq : Eq RunStatus
unfolding RunStatus-discrete
RunStatus-eq = record { dec = RunStatus-discrete }

instance unfoldable pub Decision-eq : Eq Decision
unfolding Decision-discrete
Decision-eq = record { dec = Decision-discrete }

instance unfoldable pub EventResult-eq : Eq EventResult
unfolding EventResult-discrete
EventResult-eq = record { dec = EventResult-discrete }

instance unfoldable pub ExecutorIsolation-eq : Eq ExecutorIsolation
unfolding ExecutorIsolation-discrete
ExecutorIsolation-eq = record { dec = ExecutorIsolation-discrete }
