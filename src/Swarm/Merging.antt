-- ===== src/Swarm/Merging.antt =====
-- The messages, sidechains, reviews and merges of crates/moxi-swarm/src/lib.rs. A `BTreeSet` of texts
-- and a sorted `Vec` are lists in the order of the code points, as in UTF-8.
use essence_agent.Base.{
  ℕ, ◌%◌, ◌^◌, String, Bool, true, false, Option, none, some, List, [], ◌∷◌, ◌++◌, map,
  if◌then◌else◌, is_empty, contains, keep, any, length, not, ◌==◌, ◌&&◌, ◌||◌, string_eq, nat_eq,
  ltb,
}
use essence_agent.Base.Text.{Codes, codes, contains_text}
use essence_agent.Base.Outcome.Pure.{Result, ok, fail_if, ◌>>◌}
use essence_agent.Contracts.{RiskLevel, Value}
use essence_agent.Platform.{stable_id}
use essence_agent.Swarm.Data.{
  SwarmError, missing_merge_evidence, AgentMessageKind, AgentMessageKind-eq, ReviewDecision,
  ReviewDecision-eq, EvalSeverity, SwarmPlan, HandoffContract, AgentMessage, SubagentSidechain,
  ReviewGate, MergeEvidence, ParentMerge, SwarmSafetyFinding, SwarmPlatform,
}

-- `a < b` on texts
abbrev pub before : Codes → Codes → Bool
before s [] = false
before [] (d ∷ t) = true
before (c ∷ s) (d ∷ t) = if c == d then before s t else ltb c d

-- `BTreeSet::insert`
abbrev pub add : String → List String → List String
add x [] = x ∷ []
add x (y ∷ ys) =
    let rest = add x ys in
    if x == y then y ∷ ys else (if before (codes x) (codes y) then x ∷ y ∷ ys else y ∷ rest)

-- a `BTreeSet` of the texts, in order; also `sort` and then `dedup`
unfoldable pub sorted_set : List String → List String
sorted_set [] = []
sorted_set (x ∷ xs) = add x (sorted_set xs)

abbrev as_u32 : ℕ → ℕ
as_u32 n = n % 2 ^ 32

abbrev is_data : AgentMessageKind → Bool
is_data AgentMessageKind.claim = true
is_data AgentMessageKind.evidence = true
is_data AgentMessageKind.risk_notice = true
is_data _ = false

abbrev all_refs : List AgentMessage → List String
all_refs [] = []
all_refs (message ∷ rest) = message.evidence_refs ++ all_refs rest

abbrev pub gate_refs : Option ReviewGate → List String
gate_refs none = []
gate_refs (some review) = review.evidence_refs

abbrev gate_id_of : Option ReviewGate → Option String
gate_id_of none = none
gate_id_of (some review) = some review.gate_id

abbrev is_approved : Option ReviewGate → Bool
is_approved none = false
is_approved (some review) = review.decision == ReviewDecision.approved

module _ (p : SwarmPlatform) (now : ℕ) where
  unfoldable pub agent_message :
      HandoffContract
      → String
      → Option String
      → AgentMessageKind
      → Value
      → List String
      → AgentMessage
  agent_message handoff from_agent_id to_agent_id kind content evidence_refs = record {
    message_id =
        stable_id p.sha256_hex "agent_message"
          (p.message_json handoff.handoff_id from_agent_id kind content);
    handoff_id = handoff.handoff_id;
    from_agent_id = from_agent_id;
    to_agent_id = to_agent_id;
    kind = kind;
    content = content;
    evidence_refs = evidence_refs;
    created_at = now;
    data_only = is_data kind;
  }

  unfoldable pub sidechain_from_messages :
      String → HandoffContract → List AgentMessage → SubagentSidechain
  unfolding sorted_set
  sidechain_from_messages agent_id handoff messages =
      let message_ids = map (λ message. message.message_id) messages in
      record {
        sidechain_id =
            stable_id p.sha256_hex "sidechain"
              (p.sidechain_json agent_id handoff.handoff_id message_ids);
        agent_id = agent_id;
        handoff_id = handoff.handoff_id;
        message_ids = message_ids;
        tool_proposal_count =
            as_u32
              (length (keep (λ message. message.kind == AgentMessageKind.tool_proposal) messages));
        evidence_refs = sorted_set (all_refs messages);
        sealed_at = some now;
      }

  unfoldable pub review_gate :
      String → SubagentSidechain → ReviewDecision → List String → List String → ReviewGate
  review_gate reviewer_agent_id sidechain decision reasons evidence_refs = record {
    gate_id =
        stable_id p.sha256_hex "review_gate"
          (p.review_json reviewer_agent_id sidechain.sidechain_id decision);
    reviewer_agent_id = reviewer_agent_id;
    target_sidechain_id = sidechain.sidechain_id;
    decision = decision;
    reasons = reasons;
    evidence_refs = evidence_refs;
    reviewed_at = now;
  }

  abbrev pub merge_of : String → RiskLevel → List MergeEvidence → String → ParentMerge
  merge_of parent_run_ref risk_level evidence merged_summary =
      let evidence_ids = map (λ item. item.evidence_id) evidence in
      record {
        merge_id = stable_id p.sha256_hex "parent_merge" (p.merge_json parent_run_ref evidence_ids);
        parent_run_ref = parent_run_ref;
        evidence_ids = evidence_ids;
        merged_summary = merged_summary;
        risk_level = risk_level;
        cannot_commit_ledger = true;
        created_at = now;
      }

  unfoldable pub parent_merge :
      String → RiskLevel → List MergeEvidence → String → Result SwarmError ParentMerge
  parent_merge parent_run_ref risk_level evidence merged_summary = do
    fail_if (is_empty evidence || any (λ item. not item.accepted) evidence) missing_merge_evidence
    ok (merge_of parent_run_ref risk_level evidence merged_summary)

-- the sender is in the plan
abbrev pub is_member : SwarmPlan → AgentMessage → Bool
is_member plan message =
    contains (map (λ agent. agent.agent_id) plan.subagents) message.from_agent_id

abbrev pub is_data_instruction : AgentMessage → Bool
is_data_instruction message = message.kind == AgentMessageKind.instruction && message.data_only

module _ (p : SwarmPlatform) where
  unfoldable pub merge_evidence : SubagentSidechain → Option ReviewGate → String → MergeEvidence
  unfolding sorted_set
  merge_evidence sidechain review summary = record {
    evidence_id =
        stable_id p.sha256_hex "merge_evidence"
          (p.evidence_json sidechain.sidechain_id (gate_id_of review));
    sidechain_id = sidechain.sidechain_id;
    review_gate_id = gate_id_of review;
    evidence_refs = sorted_set (sidechain.evidence_refs ++ gate_refs review);
    summary = summary;
    accepted = is_approved review;
  }

  abbrev pub finding_if : Bool → ℕ → EvalSeverity → String → AgentMessage → List SwarmSafetyFinding
  finding_if false number severity text message = []
  finding_if true number severity text message =
      record {
        finding_id =
            stable_id p.sha256_hex "swarm_finding" (p.finding_json message.message_id number);
        severity = severity;
        target_ref = message.message_id;
        message = text;
        blocked = true;
      }
      ∷ []

  abbrev pub is_malicious : AgentMessage → Bool
  is_malicious message =
      let lower = codes (p.to_lowercase message.content) in
      contains_text lower (codes "bypass policy")
      || contains_text lower (codes "ignore review gate")

  unfoldable pub swarm_safety_findings : SwarmPlan → List AgentMessage → List SwarmSafetyFinding
  swarm_safety_findings plan [] = []
  swarm_safety_findings plan (message ∷ rest) =
      finding_if (not (is_member plan message)) 1 EvalSeverity.high
        "message sender is not in the swarm plan" message
      ++ (finding_if (is_data_instruction message) 2 EvalSeverity.high
            "data-only content cannot become an instruction" message
          ++ (finding_if (is_malicious message) 3 EvalSeverity.critical
                "malicious or faulty-agent instruction detected" message
              ++ swarm_safety_findings plan rest))
