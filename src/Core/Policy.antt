-- ===== src/Core/Policy.antt =====
-- `PolicyEngine::evaluate`.
use essence_agent.Base.{
  String, Bool, true, false, Option, none, some, List, [], ◌∷◌, ◌++◌, contains, is_empty, not,
  string_eq, ◌&&◌, if◌then◌else◌,
}
use essence_agent.Base.Text.{concat}
use essence_agent.Contracts.{
  RiskLevel, at_least, Decision, ApprovalPolicy, PolicyConfig, RequiredApproval, RunContract,
  CapabilityContract, WorldDelta,
}
use essence_agent.Core.Patterns.{
  capability_rule_matches, first_matching_resource, permission_mode_denial,
}

pub record PolicyEvaluation : Type 0 where
  pub decision : Decision
  pub risk_level : RiskLevel
  pub reasons : List String
  pub required_approval : Option RequiredApproval

-- `{:?}` of a risk level and of an approval policy
abbrev pub risk_name : RiskLevel → String
risk_name RiskLevel.low = "Low"
risk_name RiskLevel.medium = "Medium"
risk_name RiskLevel.high = "High"
risk_name RiskLevel.critical = "Critical"

abbrev pub approval_policy_name : ApprovalPolicy → String
approval_policy_name ApprovalPolicy.human = "Human"
approval_policy_name ApprovalPolicy.quorum = "Quorum"
approval_policy_name ApprovalPolicy.admin = "Admin"
approval_policy_name ApprovalPolicy.none = "None"

-- `std::cmp::max(a, b)`, which is `b` where the two are equal
unfoldable pub max_risk : RiskLevel → RiskLevel → RiskLevel
max_risk a b = if at_least b a then b else a

-- `threshold.is_some_and(|t| risk_level >= t)`
abbrev pub reaches : Option RiskLevel → RiskLevel → Bool
reaches none risk_level = false
reaches (some threshold) risk_level = at_least risk_level threshold

-- the reason that a test pushes
abbrev pub reason_if : Bool → String → List String
reason_if true reason = reason ∷ []
reason_if false reason = []

-- the reason that a match pushes
abbrev pub reason_of : (String → String) → Option String → List String
reason_of f none = []
reason_of f (some x) = f x ∷ []

module _ (config : PolicyConfig) where
  -- `reasons`: why the request is denied
  unfoldable pub denial_reasons : RunContract → CapabilityContract → RiskLevel → List String
  denial_reasons run capability risk_level =
      reason_if
        (config.require_declared_capabilities
          && not (contains run.required_capabilities capability.capability_id))
        "capability not declared in RunContract"
      ++ (reason_if (capability_rule_matches config.denied_capabilities capability.capability_id)
            (concat ("capability " ∷ capability.capability_id ∷ " is denied by policy config" ∷ []))
          ++ (reason_if (reaches config.deny_at_or_above risk_level)
                (concat ("risk level " ∷ risk_name risk_level ∷ " is denied by policy config" ∷ []))
              ++ (reason_of (λ reason. reason)
                    (permission_mode_denial run.permission_mode capability.permissions.resources)
                  ++ reason_of
                      (λ resource.
                        concat ("resource " ∷ resource ∷ " is denied by policy config" ∷ []))
                      (first_matching_resource config.denied_resource_patterns
                        capability.permissions.resources))))

  abbrev approval_text : List String → String
  approval_text subject =
      concat
        (subject ++ " requires " ∷ approval_policy_name config.approval_policy ∷ " approval" ∷ [])

  -- `approval_reasons`: why the request needs an approval
  unfoldable pub approval_reasons : CapabilityContract → RiskLevel → List String
  approval_reasons capability risk_level =
      reason_if (reaches config.approval_required_at_or_above risk_level)
        (approval_text ("risk level " ∷ risk_name risk_level ∷ []))
      ++ (reason_if
            (capability_rule_matches config.approval_required_capabilities capability.capability_id)
            (approval_text ("capability " ∷ capability.capability_id ∷ []))
          ++ reason_of (λ resource. approval_text ("resource " ∷ resource ∷ []))
              (first_matching_resource config.approval_required_resource_patterns
                capability.permissions.resources))

  unfoldable pub evaluate : RunContract → CapabilityContract → WorldDelta → PolicyEvaluation
  evaluate run capability delta =
      let risk_level = max_risk delta.risk_level capability.risk_level in
      let reasons = denial_reasons run capability risk_level in
      let approvals = approval_reasons capability risk_level in
      if not (is_empty reasons)
      then record {
        decision = Decision.deny;
        risk_level = risk_level;
        reasons = reasons;
        required_approval = none;
      }
      else if not (is_empty approvals)
      then record {
        decision = Decision.require_approval;
        risk_level = risk_level;
        reasons = approvals;
        required_approval = some (record {
          approval_policy = config.approval_policy;
          approval_ref = config.approval_ref;
        });
      }
      else record {
        decision = Decision.allow;
        risk_level = risk_level;
        reasons = "policy config, run contract, and capability checks passed" ∷ [];
        required_approval = none;
      }
