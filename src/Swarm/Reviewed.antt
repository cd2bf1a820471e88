-- ===== src/Swarm/Reviewed.antt =====
-- What a merge of moxi-swarm needs, and the evidence that it has.
use essence_agent.Base.{
  contains-append, is_empty-map, ℕ, String, true, false, ◌≡◌, ◌↔◌, ◌⊎◌, inl, inr, refl, ap, ◌∙◌,
  Option, none, some, List, [], ◌∷◌, ◌++◌, map, arith, All, any, contains, not, is_empty, ◌==◌,
  ==_iff, ◌||◌, string_eq, Bool-cases,
}
use mathlib.Core.List.{append-nil}
use essence_agent.Base.Outcome.Pure.{Result, ok, err}
use essence_agent.Contracts.{RiskLevel}
use essence_agent.Swarm.Data.{
  SwarmError, missing_merge_evidence, ReviewDecision, ReviewDecision-eq, SubagentSidechain,
  ReviewGate, MergeEvidence, ParentMerge, SwarmPlatform,
}
use essence_agent.Swarm.Merging.{add, sorted_set, merge_evidence, merge_of, parent_merge, before}
use essence_agent.Base.Text.{codes}

-- The work of one subagent with its review and its summary.
abbrev pub Work : Type 0
Work = SubagentSidechain × Option ReviewGate × String

-- The review is there and approves.
abbrev pub IsApproved : Work → Type 0
IsApproved (sidechain, review, summary) =
    (gate : ReviewGate) × (review ≡ some gate) × (gate.decision ≡ ReviewDecision.approved)

contains-add : (x c : String) (ys : List String) → contains (add x ys) c ≡ (x == c || contains ys c)
contains-add x c [] = refl
contains-add x c (y ∷ ys) = elim (Bool-cases (x == y)) [
  | inl same ↦ rw same (ground (arith, (==_iff x y).0 same))
  | inr differ ↦ elim (Bool-cases (before (codes x) (codes y))) [
    | inl first ↦ rw (differ, first) refl
    | inr later ↦ rw (differ, later) (ground (arith, contains-add x c ys))
  ]
]

contains-sorted_set : (xs : List String) (c : String) → contains (sorted_set xs) c ≡ contains xs c
unfolding sorted_set
contains-sorted_set [] c = refl
contains-sorted_set (x ∷ xs) c =
    contains-add x c (sorted_set xs) ∙ ap (λ b. x == c || b) (contains-sorted_set xs c)

module _ (p : SwarmPlatform) where
  abbrev pub evidence_of : Work → MergeEvidence
  evidence_of (sidechain, review, summary) = merge_evidence p sidechain review summary

  accepted_iff :
      (work : Work) → (MergeEvidence.accepted (evidence_of work) ≡ true) ↔ IsApproved work
  unfolding merge_evidence
  accepted_iff (sidechain, none, summary) =
      (λ h. absurd (ground arith), λ (gate, is_gate, _). absurd (ground (arith, is_gate)))
  accepted_iff (sidechain, some gate, summary) = (
    λ h. (gate, refl, (==_iff gate.decision ReviewDecision.approved).0 h),
    λ (other, is_gate, approves).
        (==_iff gate.decision ReviewDecision.approved).1 (ground (arith, is_gate, approves)),
  )

  all_approved :
      (works : List Work)
      → (any (λ item. not item.accepted) (map evidence_of works) ≡ false) ↔ All IsApproved works
  all_approved [] = (λ h. tt, λ h. refl)
  all_approved (work ∷ works) = elim (Bool-cases (MergeEvidence.accepted (evidence_of work))) [
    | inl accepted ↦ (
      λ h. ((accepted_iff work).0 accepted, (all_approved works).0 (ground (arith, accepted, h))),
      λ h. ground (arith, accepted, (all_approved works).1 h.1),
    )
    | inr refused ↦ (
      λ h. absurd (ground (arith, refused, h)),
      λ h. absurd (ground (arith, refused, (accepted_iff work).1 h.0)),
    )
  ]

  -- The evidence of a merge is that of the sidechain where there is no review, and otherwise that of
  -- the sidechain and that of the review, and no other.
  pub merge_evidence_lem :
      (sidechain : SubagentSidechain) (review : Option ReviewGate) (summary : String) (c : String)
      → ((review ≡ none)
          × (contains (merge_evidence p sidechain review summary).evidence_refs c
              ≡ contains sidechain.evidence_refs c))
        ⊎ ((gate : ReviewGate) × (review ≡ some gate)
            × (contains (merge_evidence p sidechain review summary).evidence_refs c
                ≡ (contains sidechain.evidence_refs c || contains gate.evidence_refs c)))
  unfolding merge_evidence
  merge_evidence_lem sidechain none summary c = inl (
    refl,
    contains-sorted_set (sidechain.evidence_refs ++ []) c
        ∙ ap (λ refs. contains refs c) (append-nil sidechain.evidence_refs),
  )
  merge_evidence_lem sidechain (some gate) summary c = inr (
    gate,
    refl,
    contains-sorted_set (sidechain.evidence_refs ++ gate.evidence_refs) c
        ∙ contains-append sidechain.evidence_refs gate.evidence_refs c,
  )

module _ (p : SwarmPlatform) (now : ℕ) (parent_run_ref : String) (risk_level : RiskLevel)
    (works : List Work) (merged_summary : String) where
  abbrev merged : Result SwarmError ParentMerge
  merged = parent_merge p now parent_run_ref risk_level (map (evidence_of p) works) merged_summary

  -- The parent merges the work of its subagents exactly where there is some, and each piece of it has
  -- a review that approves; the merge cannot commit to the ledger.
  pub parent_merge_lem :
      ((merge : ParentMerge) × (merged ≡ ok merge)
        × (is_empty works ≡ false)
        × All IsApproved works
        × (merge.cannot_commit_ledger ≡ true))
      ⊎ ((merged ≡ err missing_merge_evidence)
          × ((is_empty works ≡ true) ⊎ (¬ All IsApproved works)))
  unfolding parent_merge
  parent_merge_lem =
      let size = is_empty-map (evidence_of p) works in
      elim (Bool-cases (is_empty works)) [
        | inl nothing ↦ inr (ground (arith, size, nothing), inl nothing)
        | inr given ↦
            elim (Bool-cases (any (λ item. not item.accepted) (map (evidence_of p) works))) [
              | inl unapproved ↦ inr (
                ground (arith, size, given, unapproved),
                inr (λ all. ground (arith, unapproved, (all_approved p works).1 all)),
              )
              | inr approved ↦ inl (
                merge_of p now parent_run_ref risk_level (map (evidence_of p) works) merged_summary,
                ground (arith, size, given, approved),
                given,
                (all_approved p works).0 approved,
                refl,
              )
            ]
      ]
