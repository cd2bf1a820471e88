-- ===== src/Swarm/Messages.antt =====
-- Which messages of a swarm raise which findings: `swarm_safety_findings`.
use essence_agent.Base.{
  ℕ, String, Bool, true, false, ◌≡◌, ◌↔◌, ◌⊎◌, inl, inr, refl, List, [], ◌∷◌, ◌++◌, map, arith,
  contains, not, ==_iff, string_eq,
}
use essence_agent.Base.Text.{codes}
use essence_agent.Base.Occurrence.{Occurs, contains_text_iff}
use essence_agent.Platform.{stable_id}
use essence_agent.Core.Grounds.{Any}
use essence_agent.Swarm.Data.{
  SubagentManifest, SwarmPlan, AgentMessage, AgentMessageKind, AgentMessageKind-eq, EvalSeverity,
  SwarmSafetyFinding, SwarmPlatform,
}
use essence_agent.Swarm.Merging.{
  is_member, is_data_instruction, is_malicious, swarm_safety_findings, finding_if,
}

-- The sender is no agent of the plan.
abbrev pub IsOutsider : SwarmPlan → AgentMessage → Type 0
IsOutsider plan message = ¬ Any (λ agent. agent.agent_id ≡ message.from_agent_id) plan.subagents

-- The message passes data off as an instruction.
abbrev pub IsDataInstruction : AgentMessage → Type 0
IsDataInstruction message =
    (message.kind ≡ AgentMessageKind.instruction) × (message.data_only ≡ true)

member_iff :
    (agents : List SubagentManifest) (id : String)
    → (contains (map (λ agent. agent.agent_id) agents) id ≡ true)
      ↔ Any (λ agent. agent.agent_id ≡ id) agents
member_iff [] id = ground arith
member_iff (agent ∷ agents) id = ground (arith, member_iff agents id, ==_iff agent.agent_id id)

IsOutsider-iff :
    (plan : SwarmPlan) (message : AgentMessage)
    → (not (is_member plan message) ≡ true) ↔ IsOutsider plan message
IsOutsider-iff plan message = ground (arith, member_iff plan.subagents message.from_agent_id)

IsDataInstruction-iff :
    (message : AgentMessage) → (is_data_instruction message ≡ true) ↔ IsDataInstruction message
IsDataInstruction-iff message = ground (arith, ==_iff message.kind AgentMessageKind.instruction)

module _ (p : SwarmPlatform) where
  -- One of the two phrases stands in the message, in lower case.
  abbrev pub IsMalicious : AgentMessage → Type 0
  IsMalicious message =
      Occurs (codes "bypass policy") (codes (p.to_lowercase message.content))
      ⊎ Occurs (codes "ignore review gate") (codes (p.to_lowercase message.content))

  IsMalicious-iff : (message : AgentMessage) → (is_malicious p message ≡ true) ↔ IsMalicious message
  IsMalicious-iff message =
      let lower = codes (p.to_lowercase message.content) in
      ground (
        arith,
        contains_text_iff lower (codes "bypass policy"),
        contains_text_iff lower (codes "ignore review gate"),
      )

  -- A blocked finding about the message, of this number, severity and text.
  pub record IsFinding (number : ℕ) (level : EvalSeverity) (wording : String)
      (message : AgentMessage) (finding : SwarmSafetyFinding) : Type 0 where
    pub finding_id :
        finding.finding_id
        ≡ stable_id p.sha256_hex "swarm_finding" (p.finding_json message.message_id number)
    pub severity : finding.severity ≡ level
    pub target_ref : finding.target_ref ≡ message.message_id
    pub text : finding.message ≡ wording
    pub blocked : finding.blocked ≡ true

  -- The findings are the one finding about the message where it is what they are about, and none
  -- otherwise.
  abbrev pub Reported :
      Type 0 → ℕ → EvalSeverity → String → AgentMessage → List SwarmSafetyFinding → Type 0
  Reported P number severity text message found =
      (P
        × ((finding : SwarmSafetyFinding) × (found ≡ finding ∷ [])
            × IsFinding number severity text message finding))
      ⊎ ((¬ P) × (found ≡ []))

  reported :
      (P : Type 0) (test : Bool) (number : ℕ) (severity : EvalSeverity) (text : String)
      (message : AgentMessage)
      → (test ≡ true) ↔ P
      → Reported P number severity text message (finding_if p test number severity text message)
  reported P true number severity text message same = inl (
    same.0 refl,
    (
      _,
      refl,
      record { finding_id = refl; severity = refl; target_ref = refl; text = refl; blocked = refl },
    ),
  )
  reported P false number severity text message same = inr (λ h. ground (arith, same.1 h), refl)

  module _ (plan : SwarmPlan) where
    -- For each message in turn, the findings about its sender, its kind and its phrases.
    abbrev pub Reports : List AgentMessage → List SwarmSafetyFinding → Type 0
    Reports [] findings = findings ≡ []
    Reports (message ∷ messages) findings =
        (outside : List SwarmSafetyFinding) × (passed_off : List SwarmSafetyFinding)
        × (malicious : List SwarmSafetyFinding) × (others : List SwarmSafetyFinding) × (findings
            ≡ outside ++ (passed_off ++ (malicious ++ others)))
        × Reported (IsOutsider plan message) 1 EvalSeverity.high
            "message sender is not in the swarm plan" message outside
        × Reported (IsDataInstruction message) 2 EvalSeverity.high
            "data-only content cannot become an instruction" message passed_off
        × Reported (IsMalicious message) 3 EvalSeverity.critical
            "malicious or faulty-agent instruction detected" message malicious
        × Reports messages others

    -- Each message raises, in this order, a finding of high severity just where its sender is no agent
    -- of the plan, one of high severity just where it is an instruction that is data only, and one of
    -- critical severity just where "bypass policy" or "ignore review gate" stands in its content in
    -- lower case; each finding is blocked and refers to its message. There are no other findings.
    pub swarm_safety_findings_lem :
        (messages : List AgentMessage) → Reports messages (swarm_safety_findings p plan messages)
    unfolding swarm_safety_findings
    swarm_safety_findings_lem [] = refl
    swarm_safety_findings_lem (message ∷ messages) = (
      _,
      _,
      _,
      swarm_safety_findings p plan messages,
      refl,
      reported (IsOutsider plan message) (not (is_member plan message)) 1 EvalSeverity.high
          "message sender is not in the swarm plan" message (IsOutsider-iff plan message),
      reported (IsDataInstruction message) (is_data_instruction message) 2 EvalSeverity.high
          "data-only content cannot become an instruction" message (IsDataInstruction-iff message),
      reported (IsMalicious message) (is_malicious p message) 3 EvalSeverity.critical
          "malicious or faulty-agent instruction detected" message (IsMalicious-iff message),
      swarm_safety_findings_lem messages,
    )
