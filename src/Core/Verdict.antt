-- ===== src/Core/Verdict.antt =====
-- `PolicyEngine::evaluate` against its conditions, written out as predicates.
use essence_agent.Base.{
  max, ◌≤◌, String, ◌≡◌, ◌≢◌, ◌↔◌, ◌⊎◌, refl, Bool, true, false, Option, none, some, List, [], ◌∷◌,
  arith, is_empty, contains, string_eq, ◌&&◌, not, any,
}
use essence_agent.Base.Text.{codes}
use essence_agent.Contracts.{
  RiskLevel, rank, Decision, PolicyConfig, RunContract, CapabilityContract, WorldDelta,
}
use essence_agent.Core.Patterns.{
  exact_or_prefix_pattern_matches, resource_pattern_matches, capability_rule_matches,
  first_matching_resource, permission_mode_denial, permission_mode_allows_resource,
}
use essence_agent.Core.Policy.{
  PolicyEvaluation, max_risk, reaches, reason_of, denial_reasons, approval_reasons, evaluate,
}
use essence_agent.Core.Grounds.{
  Any, any_iff, contains_iff, Tells, Tells-append, Tells-if, Tells-find,
}

-- The identifier of the capability matches one of the patterns.
abbrev pub Ruled : List String → CapabilityContract → Type 0
Ruled patterns capability =
    Any
      (λ pattern.
        exact_or_prefix_pattern_matches (codes pattern) (codes capability.capability_id) ≡ true)
      patterns

-- One of the capability's resources matches one of the patterns.
abbrev pub Touches : List String → CapabilityContract → Type 0
Touches patterns capability =
    Any
      (λ resource.
        Any (λ pattern. resource_pattern_matches (codes pattern) (codes resource) ≡ true) patterns)
      capability.permissions.resources

-- The risk is at or above a threshold that is set.
abbrev pub Above : Option RiskLevel → RiskLevel → Type 0
Above threshold risk = (level : RiskLevel) × (threshold ≡ some level) × (rank level ≤ rank risk)

-- One of the capability's resources is one the mode does not allow.
abbrev pub Exceeds : RunContract → CapabilityContract → Type 0
Exceeds run capability =
    Any (λ resource. permission_mode_allows_resource run.permission_mode resource ≡ false)
      capability.permissions.resources

module _ (config : PolicyConfig) (run : RunContract) (capability : CapabilityContract) where
  -- Why the engine denies.
  abbrev pub DenialGround : RiskLevel → Type 0
  DenialGround risk =
      ((config.require_declared_capabilities ≡ true)
        × (¬ Any (λ id. id ≡ capability.capability_id) run.required_capabilities))
      ⊎ (Ruled config.denied_capabilities capability
          ⊎ (Above config.deny_at_or_above risk
              ⊎ (Exceeds run capability ⊎ Touches config.denied_resource_patterns capability)))

  -- Why the engine asks for an approval, where it does not deny.
  abbrev pub ApprovalGround : RiskLevel → Type 0
  ApprovalGround risk =
      Above config.approval_required_at_or_above risk
      ⊎ (Ruled config.approval_required_capabilities capability
          ⊎ Touches config.approval_required_resource_patterns capability)

reaches_iff :
    (threshold : Option RiskLevel) (risk : RiskLevel)
    → (reaches threshold risk ≡ true) ↔ Above threshold risk
reaches_iff none risk = ground arith
reaches_iff (some level) risk =
    (λ h. (level, refl, ground arith), λ (found, e, le). ground (arith, e, le))

Ruled-iff :
    (patterns : List String) (capability : CapabilityContract)
    → (capability_rule_matches patterns capability.capability_id ≡ true) ↔ Ruled patterns capability
unfolding capability_rule_matches
Ruled-iff patterns capability =
    any_iff
      (λ pattern. exact_or_prefix_pattern_matches (codes pattern) (codes capability.capability_id))
      patterns

Touches-iff :
    (f : String → String) (patterns : List String) (capability : CapabilityContract)
    → Tells
        (reason_of f (first_matching_resource patterns capability.permissions.resources))
        (Touches patterns capability)
unfolding first_matching_resource
Touches-iff f patterns capability =
    Tells-find
      (λ resource.
        any (λ pattern. resource_pattern_matches (codes pattern) (codes resource)) patterns)
      (λ resource.
        any_iff (λ pattern. resource_pattern_matches (codes pattern) (codes resource)) patterns)
      f capability.permissions.resources

not_iff : (test : Bool) → (not test ≡ true) ↔ (test ≡ false)
not_iff true = ground arith
not_iff false = ground arith

Exceeds-iff :
    (run : RunContract) (capability : CapabilityContract)
    → Tells
        (reason_of
          (λ reason. reason)
          (permission_mode_denial run.permission_mode capability.permissions.resources))
        (Exceeds run capability)
unfolding permission_mode_denial
Exceeds-iff run capability = ground (
  arith,
  Tells-find (λ resource. not (permission_mode_allows_resource run.permission_mode resource))
      (λ resource. not_iff (permission_mode_allows_resource run.permission_mode resource))
      (λ reason. reason) capability.permissions.resources,
)

undeclared_iff :
    (config : PolicyConfig) (run : RunContract) (capability : CapabilityContract)
    → ((config.require_declared_capabilities
          && not (contains run.required_capabilities capability.capability_id))
        ≡ true)
      ↔ ((config.require_declared_capabilities ≡ true)
          × (¬ Any (λ id. id ≡ capability.capability_id) run.required_capabilities))
undeclared_iff config run capability =
    ground (arith, contains_iff run.required_capabilities capability.capability_id)

module _ (config : PolicyConfig) (run : RunContract) (capability : CapabilityContract)
    (risk : RiskLevel) where
  denied_iff :
      Tells (denial_reasons config run capability risk) (DenialGround config run capability risk)
  unfolding denial_reasons
  denied_iff = Tells-append _ _ (Tells-if _ _ (undeclared_iff config run capability)) (
      Tells-append _ _ (Tells-if _ _ (Ruled-iff config.denied_capabilities capability)) (
        Tells-append _ _ (Tells-if _ _ (reaches_iff config.deny_at_or_above risk)) (
          Tells-append _ _ (Exceeds-iff run capability)
            (Touches-iff _ config.denied_resource_patterns capability))))

  approved_iff :
      Tells (approval_reasons config capability risk) (ApprovalGround config run capability risk)
  unfolding approval_reasons
  approved_iff =
      Tells-append _ _ (Tells-if _ _ (reaches_iff config.approval_required_at_or_above risk)) (
        Tells-append _ _ (Tells-if _ _ (Ruled-iff config.approval_required_capabilities capability))
          (Touches-iff _ config.approval_required_resource_patterns capability))

rank-max_risk : (a b : RiskLevel) → rank (max_risk a b) ≡ max (rank a) (rank b)
unfolding max_risk
rank-max_risk a b = ground arith

tells_not :
    (reasons : List String) {P : Type 0} → Tells reasons P → (is_empty reasons ≡ true) ↔ (¬ P)
tells_not [] h = ground (arith, h)
tells_not (reason ∷ reasons) h = ground (arith, h)

module _ (config : PolicyConfig) (run : RunContract) (capability : CapabilityContract)
    (delta : WorldDelta) where
  abbrev made : PolicyEvaluation
  made = evaluate config run capability delta

  abbrev risk : RiskLevel
  risk = max_risk delta.risk_level capability.risk_level

  abbrev quiet : Bool
  quiet = is_empty (denial_reasons config run capability risk)

  abbrev content : Bool
  content = is_empty (approval_reasons config capability risk)

  risk_of : made.risk_level ≡ risk
  unfolding evaluate
  risk_of = ground arith

  deny_iff : (made.decision ≡ Decision.deny) ↔ (quiet ≡ false)
  unfolding evaluate
  deny_iff = ground arith

  ask_iff : (made.decision ≡ Decision.require_approval) ↔ ((quiet ≡ true) × (content ≡ false))
  unfolding evaluate
  ask_iff = ground arith

  allow_iff : (made.decision ≡ Decision.allow) ↔ ((quiet ≡ true) × (content ≡ true))
  unfolding evaluate
  allow_iff = ground arith

  asks_iff :
      (made.required_approval
        ≡ some (record {
          approval_policy = config.approval_policy;
          approval_ref = config.approval_ref;
        }))
      ↔ (made.decision ≡ Decision.require_approval)
  unfolding evaluate
  asks_iff = ground arith

  asks_none_iff : (made.required_approval ≡ none) ↔ (made.decision ≢ Decision.require_approval)
  unfolding evaluate
  asks_none_iff = ground arith

  reasoned : is_empty made.reasons ≡ false
  unfolding evaluate
  reasoned = ground arith

  -- The engine decides by the maximum of the delta's and the capability's risk. It denies exactly
  -- when there is a ground to deny, asks for an approval exactly when there is none and a ground to
  -- ask, and allows exactly when there is neither; it names the configured approval when it asks for
  -- one, and none otherwise, and it always gives a reason.
  pub evaluate_iff :
      (rank made.risk_level ≡ max (rank delta.risk_level) (rank capability.risk_level))
      × ((made.decision ≡ Decision.deny) ↔ DenialGround config run capability made.risk_level)
      × ((made.decision ≡ Decision.require_approval) ↔ (
          (¬ DenialGround config run capability made.risk_level)
          × ApprovalGround config run capability made.risk_level))
      × ((made.decision ≡ Decision.allow) ↔ (
          (¬ DenialGround config run capability made.risk_level)
          × (¬ ApprovalGround config run capability made.risk_level)))
      × ((made.required_approval
            ≡ some (record {
              approval_policy = config.approval_policy;
              approval_ref = config.approval_ref;
            }))
          ↔ (made.decision ≡ Decision.require_approval))
      × ((made.required_approval ≡ none) ↔ (made.decision ≢ Decision.require_approval))
      × (is_empty made.reasons ≡ false)
  evaluate_iff =
      let denied = denied_iff config run capability risk in
      let approved = approved_iff config run capability risk in
      let calm = tells_not (denial_reasons config run capability risk) denied in
      let free = tells_not (approval_reasons config capability risk) approved in
      rw risk_of (
        rank-max_risk delta.risk_level capability.risk_level,
        (λ h. denied.0 (deny_iff.0 h), λ h. deny_iff.1 (denied.1 h)),
        (
          λ h. (calm.0 (ask_iff.0 h).0, approved.0 (ask_iff.0 h).1),
          λ h. ask_iff.1 (calm.1 h.0, approved.1 h.1),
        ),
        (
          λ h. (calm.0 (allow_iff.0 h).0, free.0 (allow_iff.0 h).1),
          λ h. allow_iff.1 (calm.1 h.0, free.1 h.1),
        ),
        asks_iff,
        asks_none_iff,
        reasoned,
      )
