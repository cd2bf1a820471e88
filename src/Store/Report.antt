-- ===== src/Store/Report.antt =====
-- What the report of `replay_ledger_audit` counts.
use essence_agent.Base.{
  ℕ, ◌+◌, ◌≡◌, ◌≤◌, String, List, [], ◌∷◌, arith, ◌==◌, length, if◌then◌else◌, Bool-cases, inl, inr,
}
use essence_agent.Base.Outcome.Pure.{ok}
use essence_agent.Contracts.{
  LedgerEvent, PolicyDecision, SandboxResult, EventResult, EventResult-eq,
}
use essence_agent.Platform.{Platform}
use essence_agent.Store.{
  Store, LedgerRow, AuditReplayReport, empty_report, replay_event, replay_events,
  replay_ledger_audit, verify_successful_ledger_event, verify_policy_allows, verify_proofs,
  approval_grants_for_policy_decision, proof, policy_decision, sandbox_result, execution_ticket,
  capability_contract, executor_manifest,
}
use essence_agent.Store.Accounted.{found_policy, at_policy, at_proofs}
use essence_agent.Store.Replay.{passed, started}

-- How many events of the ledger are successful, and how many proofs those refer to.
abbrev pub successes : List LedgerRow → ℕ
successes [] = 0
successes (row ∷ rows) =
    (if row.payload.result == EventResult.success then 1 else 0) + successes rows

abbrev pub proofs_cited : List LedgerRow → ℕ
proofs_cited [] = 0
proofs_cited (row ∷ rows) =
    (if row.payload.result == EventResult.success then length row.payload.proof_refs else 0)
    + proofs_cited rows

-- What a stretch of the replay adds to the counters of a report.
record Adds (before after : AuditReplayReport) (events ok_events cited : ℕ) : Type 0 where
  ledger_events : after.ledger_events ≡ before.ledger_events + events
  successful_events : after.successful_events ≡ before.successful_events + ok_events
  policy_decisions : after.policy_decisions ≡ before.policy_decisions + ok_events
  capability_contracts : after.capability_contracts ≡ before.capability_contracts + ok_events
  executor_manifests : after.executor_manifests ≡ before.executor_manifests + ok_events
  execution_tickets : after.execution_tickets ≡ before.execution_tickets + ok_events
  sandbox_results : after.sandbox_results ≡ before.sandbox_results + ok_events
  proofs : after.proofs ≡ before.proofs + cited
  grants_below : after.approval_grants ≤ before.approval_grants + ok_events
  grants_kept : before.approval_grants ≤ after.approval_grants

module _ (p : Platform) (s : Store) (event : LedgerEvent) where
  policy_adds :
      (policy : PolicyDecision) (report : AuditReplayReport)
      → let after = (verify_policy_allows s event policy report).1 in
        (after ≡ record report { approval_grants = after.approval_grants })
        × (report.approval_grants ≤ after.approval_grants)
        × (after.approval_grants ≤ report.approval_grants + 1)
  unfolding verify_policy_allows approval_grants_for_policy_decision
  policy_adds policy report = ground arith

  proofs_add :
      (outcome : SandboxResult) (refs : List String) (report : AuditReplayReport)
      → (verify_proofs p s event outcome refs report).0 ≡ ok tt
      → (verify_proofs p s event outcome refs report).1
        ≡ record report { proofs = report.proofs + length refs }
  unfolding verify_proofs proof
  proofs_add outcome [] report h = ground arith
  proofs_add outcome (id ∷ refs) report h =
      ground (arith, proofs_add outcome refs (record report { proofs = report.proofs + 1 }))

  -- The counters after a successful event, which the code has counted before it looks into it.
  success_counts :
      (report : AuditReplayReport)
      → (verify_successful_ledger_event p s event report).0 ≡ ok tt
      → let after = (verify_successful_ledger_event p s event report).1 in
        (after ≡ record (at_proofs (at_policy report)) {
          proofs = report.proofs + length event.proof_refs;
          approval_grants = after.approval_grants;
        })
        × (report.approval_grants ≤ after.approval_grants)
        × (after.approval_grants ≤ report.approval_grants + 1)
  unfolding verify_successful_ledger_event policy_decision sandbox_result execution_ticket
      capability_contract executor_manifest
  success_counts report h =
      let (policy, q, qb, allowed, call) = found_policy p s event report h in
      let (outcome, o, ob, proven) = call in
      let mid = (verify_policy_allows s event policy (at_policy report)).1 in
      ground (
        arith,
        q,
        o,
        policy_adds policy (at_policy report),
        proofs_add outcome event.proof_refs (at_proofs mid) proven,
      )

module _ (p : Platform) (s : Store) where
  event-Adds :
      (row : LedgerRow) (report : AuditReplayReport)
      → (replay_event p s row.payload report).0 ≡ ok tt
      → Adds report
          (replay_event p s row.payload report).1
          1
          (if row.payload.result == EventResult.success then 1 else 0)
          (if row.payload.result == EventResult.success then length row.payload.proof_refs else 0)
  unfolding replay_event
  event-Adds row report h = elim (Bool-cases (row.payload.result == EventResult.success)) [
    | inl success ↦
        rw success (ground (arith, success, success_counts p s row.payload (started row report)))
    | inr other ↦ rw other (ground (arith, other))
  ]

  rows_add :
      (rows : List LedgerRow) (report : AuditReplayReport)
      → (replay_events p s rows report).0 ≡ ok tt
      → Adds report
          (replay_events p s rows report).1
          (length rows)
          (successes rows)
          (proofs_cited rows)
  unfolding replay_events
  rows_add [] report h = ground arith
  rows_add (row ∷ rows) report h =
      let next = replay_event p s row.payload report in
      let first = event-Adds row report (ground arith) in
      let rest = rows_add rows next.1 (ground arith) in ground (arith, first, rest)

-- A replay that passes reports the length of the ledger, and how many of its events are successful:
-- so many decisions, contracts, manifests, tickets and results it has looked at, at most so many
-- grants, and as many proofs as those events cite.
pub report_counts :
    (p : Platform) (s : Store) (report : AuditReplayReport)
    → (replay_ledger_audit p s).0 ≡ ok report
    → (report.ledger_events ≡ length s.ledger_events)
      × (report.successful_events ≡ successes s.ledger_events)
      × (report.policy_decisions ≡ successes s.ledger_events)
      × (report.capability_contracts ≡ successes s.ledger_events)
      × (report.executor_manifests ≡ successes s.ledger_events)
      × (report.execution_tickets ≡ successes s.ledger_events)
      × (report.sandbox_results ≡ successes s.ledger_events)
      × (report.proofs ≡ proofs_cited s.ledger_events)
      × (report.approval_grants ≤ successes s.ledger_events)
report_counts p s report h =
    let (_, replayed, same) = passed p s report h in
    let counted = rows_add p s s.ledger_events empty_report replayed in
    ground (arith, counted, same)
