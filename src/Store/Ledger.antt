-- ===== src/Store/Ledger.antt =====
-- The ledger: an event is appended with the hash of the one before it, and the chain of hashes
-- is validated from the first row on.
use essence_agent.Base.{
  String, Bool, Option, none, some, List, [], ◌∷◌, ◌++◌, any, string_eq, ◌==◌, ◌!=◌, if◌then◌else◌,
}
use essence_agent.Base.Outcome.Pure.{Result, ok, err, fail_if, ◌>>◌}
use essence_agent.Contracts.{LedgerEvent}
use essence_agent.Platform.{Platform, hash_event}
use essence_agent.Store.State.{
  StoreError, StoreAction, LedgerRow, sqlite_constraint, ledger_chain_broken, ledger_hash_mismatch,
}

-- `SELECT event_hash ... ORDER BY rowid DESC LIMIT 1`
abbrev pub last_hash : List LedgerRow → Option String
last_hash [] = none
last_hash (row ∷ []) = some row.event_hash
last_hash (row ∷ rest) = last_hash rest

-- `latest_event_hash()?.unwrap_or_default()`
abbrev pub latest_event_hash : List LedgerRow → String
latest_event_hash rows = elim (last_hash rows) [ none ↦ "" | some hash ↦ hash ]

-- the event with its place in the chain and no hash yet
abbrev pub unhashed : String → LedgerEvent → LedgerEvent
unhashed previous event = record event { previous_event_hash = previous; event_hash = "" }

abbrev pub sealed : Platform → String → LedgerEvent → LedgerEvent
sealed p previous event = record event {
  previous_event_hash = previous;
  event_hash = hash_event p (unhashed previous event);
}

abbrev pub row_of : LedgerEvent → LedgerRow
row_of event = record {
  ledger_event_id = event.ledger_event_id;
  payload = event;
  event_hash = event.event_hash;
  previous_event_hash = event.previous_event_hash;
}

-- is the primary key taken?
abbrev pub has_event : String → List LedgerRow → Bool
has_event id rows = any (λ row. row.ledger_event_id == id) rows

unfoldable pub append_ledger_event : Platform → LedgerEvent → StoreAction LedgerEvent
append_ledger_event p event s =
    let event' = sealed p (latest_event_hash s.ledger_events) event in
    if has_event event'.ledger_event_id s.ledger_events
    then (err sqlite_constraint, s)
    else (ok event', record s { ledger_events = s.ledger_events ++ row_of event' ∷ [] })

-- the body of the loop of `validate_ledger_hash_chain`
unfoldable pub validate_row : Platform → String → LedgerRow → Result StoreError (Unit {0})
validate_row p expected_previous_hash row =
    let event = row.payload in
    let unsealed = record event { event_hash = "" } in
    do
      fail_if (event.ledger_event_id != row.ledger_event_id) (
          ledger_hash_mismatch row.ledger_event_id event.ledger_event_id
            "ledger_event_id column mismatch")
      fail_if (event.previous_event_hash != row.previous_event_hash) (
          ledger_chain_broken row.ledger_event_id event.previous_event_hash row.previous_event_hash)
      fail_if (event.event_hash != row.event_hash)
          (ledger_hash_mismatch row.ledger_event_id event.event_hash row.event_hash)
      fail_if (event.previous_event_hash != expected_previous_hash)
          (ledger_chain_broken row.ledger_event_id expected_previous_hash event.previous_event_hash)
      fail_if (event.event_hash != hash_event p unsealed)
          (ledger_hash_mismatch row.ledger_event_id (hash_event p unsealed) event.event_hash)

unfoldable pub validate_rows : Platform → String → List LedgerRow → Result StoreError (Unit {0})
unfolding validate_row
validate_rows p expected_previous_hash [] = ok tt
validate_rows p expected_previous_hash (row ∷ rows) =
    validate_row p expected_previous_hash row >> validate_rows p row.payload.event_hash rows

unfoldable pub validate_ledger_hash_chain : Platform → StoreAction (Unit {0})
unfolding validate_rows
validate_ledger_hash_chain p s = (validate_rows p "" s.ledger_events, s)
