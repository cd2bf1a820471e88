-- ===== src/Store/Replay.antt =====
-- `replay_ledger_audit`: which stores pass, and what the report counts.
use essence_agent.Base.{
  ◌+◌, ◌≡◌, ◌↔◌, ◌≢◌, ◌⊎◌, refl, true, some, List, [], ◌∷◌, arith, ◌==◌, ==_iff, All, Bool-cases,
  inl, inr,
}
use essence_agent.Base.Outcome.Pure.{ok}
use essence_agent.Contracts.{EventResult, EventResult-eq}
use essence_agent.Platform.{Platform}
use essence_agent.Store.{
  Store, LedgerRow, AuditReplayReport, empty_report, replay_event, replay_events,
  replay_ledger_audit, validate_ledger_hash_chain,
}
use essence_agent.Store.Chain.{IsChained, validate_iff}
use essence_agent.Store.Account.{IsAccounted}
use essence_agent.Store.Accounted.{IsAccounted-iff}

-- The event is not one of success, or the store accounts for it.
abbrev pub Stands : Platform → Store → LedgerRow → Type 0
Stands p s row = (row.payload.result ≢ EventResult.success) ⊎ IsAccounted p s row.payload

-- the report when a successful event is looked into
abbrev pub started : LedgerRow → AuditReplayReport → AuditReplayReport
started row report = record report {
  ledger_events = report.ledger_events + 1;
  last_event_hash = some row.payload.event_hash;
  successful_events = report.successful_events + 1;
}

module _ (p : Platform) (s : Store) where
  event-Stands :
      (row : LedgerRow) (report : AuditReplayReport)
      → (replay_event p s row.payload report).0 ≡ ok tt
      → Stands p s row
  unfolding replay_event
  event-Stands row report h = elim (Bool-cases (row.payload.result == EventResult.success)) [
    | inl success ↦
        inr ((IsAccounted-iff p s row.payload (started row report)).0 (ground (arith, success)))
    | inr other ↦
        inl (λ e. ground (arith, (==_iff row.payload.result EventResult.success).1 e, other))
  ]

  accounted :
      (row : LedgerRow)
      → Stands p s row
      → (row.payload.result == EventResult.success) ≡ true
      → IsAccounted p s row.payload
  accounted row (inl other) success =
      absurd (other ((==_iff row.payload.result EventResult.success).0 success))
  accounted row (inr stands) success = stands

  Stands-event :
      (row : LedgerRow) (report : AuditReplayReport)
      → Stands p s row
      → (replay_event p s row.payload report).0 ≡ ok tt
  unfolding replay_event
  Stands-event row report h = elim (Bool-cases (row.payload.result == EventResult.success)) [
    | inl success ↦
        rw success
          ((IsAccounted-iff p s row.payload (started row report)).1 (accounted row h success))
    | inr other ↦ rw other refl
  ]

  events_stand :
      (rows : List LedgerRow) (report : AuditReplayReport)
      → (replay_events p s rows report).0 ≡ ok tt
      → All (Stands p s) rows
  unfolding replay_events
  events_stand [] report h = tt
  events_stand (row ∷ rows) report h = (
    event-Stands row report (ground arith),
    events_stand rows (replay_event p s row.payload report).1 (ground arith),
  )

  stand_events :
      (rows : List LedgerRow) (report : AuditReplayReport)
      → All (Stands p s) rows
      → (replay_events p s rows report).0 ≡ ok tt
  unfolding replay_events
  stand_events [] report h = refl
  stand_events (row ∷ rows) report h = ground (
    arith,
    Stands-event row report h.0,
    stand_events rows (replay_event p s row.payload report).1 h.1,
  )

  pub passed :
      (report : AuditReplayReport)
      → (replay_ledger_audit p s).0 ≡ ok report
      → ((validate_ledger_hash_chain p s).0 ≡ ok tt)
        × ((replay_events p s s.ledger_events empty_report).0 ≡ ok tt)
        × ((replay_events p s s.ledger_events empty_report).1 ≡ report)
  unfolding replay_ledger_audit
  passed report h = ground arith

  passes :
      (validate_ledger_hash_chain p s).0 ≡ ok tt
      → (replay_events p s s.ledger_events empty_report).0 ≡ ok tt
      → (replay_ledger_audit p s).0 ≡ ok (replay_events p s s.ledger_events empty_report).1
  unfolding replay_ledger_audit
  passes h k = ground arith

  unchanged : (replay_ledger_audit p s).1 ≡ s
  unfolding replay_ledger_audit
  unchanged = refl

  -- `replay_ledger_audit` returns a report exactly when the ledger's chain of hashes holds and the
  -- store accounts for every successful event of it; it never changes the store.
  pub replay_iff :
      (((report : AuditReplayReport) × ((replay_ledger_audit p s).0 ≡ ok report))
        ↔ (IsChained p "" s.ledger_events × All (Stands p s) s.ledger_events))
      × ((replay_ledger_audit p s).1 ≡ s)
  replay_iff = (
    (
      λ h.
          let (chained, replayed, _) = passed h.0 h.1 in
          ((validate_iff p s).0.0 chained, events_stand s.ledger_events empty_report replayed),
      λ h. (
        (replay_events p s s.ledger_events empty_report).1,
        passes ((validate_iff p s).0.1 h.0) (stand_events s.ledger_events empty_report h.1),
      ),
    ),
    unchanged,
  )
