-- ===== src/Store/Observed.antt =====
-- How a new ledger event shows in the observation of each run.
use essence_agent.Base.{
  String, Bool, ◌≡◌, refl, ap, ◌∙◌, inl, inr, List, [], ◌∷◌, ◌++◌, map, keep, arith, ◌==◌,
  string_eq, if◌then◌else◌, Bool-cases,
}
use essence_agent.Base.Outcome.Pure.{ok}
use essence_agent.Contracts.{LedgerEvent}
use essence_agent.Platform.{Platform}
use essence_agent.Store.{Store, LedgerRow, append_ledger_event, row_of}
use essence_agent.Store.Listings.{observe_run}

kept_last :
    (test : LedgerEvent → Bool) (rows : List LedgerRow) (event : LedgerEvent)
    → keep test (map (λ row. row.payload) (rows ++ row_of event ∷ []))
      ≡ keep test (map (λ row. row.payload) rows) ++ (if test event then event ∷ [] else [])
kept_last test [] event = elim (Bool-cases (test event)) [
  | inl yes_kept ↦ rw yes_kept refl
  | inr dropped ↦ rw dropped refl
]
kept_last test (row ∷ rows) event = elim (Bool-cases (test row.payload)) [
  | inl first ↦ rw first (ap (λ rest. row.payload ∷ rest) (kept_last test rows event))
  | inr other ↦ rw other (kept_last test rows event)
]

module _ (p : Platform) (event committed : LedgerEvent) (s : Store) where
  abbrev after : Store
  after = (append_ledger_event p event s).1

  raw_appended :
      (append_ledger_event p event s).0 ≡ ok committed
      → after ≡ record s { ledger_events = s.ledger_events ++ row_of committed ∷ [] }
  unfolding append_ledger_event
  raw_appended h = ground arith

  -- An event that is appended is the last in the observation of its run, and changes nothing else
  -- there, nor anything in the observation of another run.
  pub observe-append :
      (run_id : String)
      → (append_ledger_event p event s).0 ≡ ok committed
      → observe_run run_id after ≡ record (observe_run run_id s) {
        ledger_events =
            (observe_run run_id s).ledger_events
            ++ (if committed.run_id == run_id then committed ∷ [] else []);
      }
  unfolding observe_run
  observe-append run_id h =
      ap (observe_run run_id) (raw_appended h)
      ∙ ap (λ events. record (observe_run run_id s) { ledger_events = events })
          (kept_last (λ item. item.run_id == run_id) s.ledger_events committed)
