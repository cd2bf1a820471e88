-- ===== src/Store/Chain.antt =====
-- The ledger's chain of hashes: what `validate_ledger_hash_chain` accepts, that appending keeps
-- it, and what it proves of a ledger.
use essence_agent.Base.{
  String, ◌≡◌, ◌↔◌, refl, sym, ap, subst, inl, inr, List, [], ◌∷◌, ◌++◌, arith, string_eq,
  if◌then◌else◌, Bool-cases,
}
use essence_agent.Base.Outcome.Pure.{ok, Result-cases}
use essence_agent.Contracts.{LedgerEvent}
use essence_agent.Platform.{Platform, hash_event}
use essence_agent.Store.{
  Store, LedgerRow, latest_event_hash, sealed, row_of, has_event, append_ledger_event, validate_row,
  validate_rows, validate_ledger_hash_chain,
}

-- The event as it is hashed.
abbrev pub unsealed : LedgerEvent → LedgerEvent
unsealed event = record event { event_hash = "" }

-- A row whose columns repeat its payload, whose event follows the hash `previous`, and whose
-- hash is that of the event.
pub record IsLinked (p : Platform) (previous : String) (row : LedgerRow) : Type 0 where
  pub columns : row ≡ row_of row.payload
  pub follows : row.payload.previous_event_hash ≡ previous
  pub hashed : row.payload.event_hash ≡ hash_event p (unsealed row.payload)

abbrev pub IsChained : Platform → String → List LedgerRow → Type 0
IsChained p previous [] = Unit
IsChained p previous (row ∷ rows) =
    IsLinked p previous row × IsChained p row.payload.event_hash rows

row_path :
    (row : LedgerRow)
    → row.payload.ledger_event_id ≡ row.ledger_event_id
    → row.payload.previous_event_hash ≡ row.previous_event_hash
    → row.payload.event_hash ≡ row.event_hash
    → row ≡ row_of row.payload
row_path row a b c = λ i. record row {
  ledger_event_id = sym a i;
  previous_event_hash = sym b i;
  event_hash = sym c i;
}

validate_row-IsLinked :
    (p : Platform) (previous : String) (row : LedgerRow)
    → validate_row p previous row ≡ ok tt
    → IsLinked p previous row
unfolding validate_row
validate_row-IsLinked p previous row h = record {
  columns = row_path row (ground arith) (ground arith) (ground arith);
  follows = ground arith;
  hashed = ground arith;
}

IsLinked-validate_row :
    (p : Platform) (previous : String) (row : LedgerRow)
    → IsLinked p previous row
    → validate_row p previous row ≡ ok tt
unfolding validate_row
IsLinked-validate_row p previous row h = ground (
  arith,
  ap (λ (r : LedgerRow). r.ledger_event_id) h.columns,
  ap (λ (r : LedgerRow). r.previous_event_hash) h.columns,
  ap (λ (r : LedgerRow). r.event_hash) h.columns,
)

validate_rows-IsChained :
    (p : Platform) (previous : String) (rows : List LedgerRow)
    → validate_rows p previous rows ≡ ok tt
    → IsChained p previous rows
unfolding validate_rows
validate_rows-IsChained p previous [] h = tt
validate_rows-IsChained p previous (row ∷ rows) h =
    elim (Result-cases (validate_row p previous row)) [
      | inl (_, good) ↦ (
        validate_row-IsLinked p previous row good,
        validate_rows-IsChained p row.payload.event_hash rows (rw good at h),
      )
      | inr (e, bad) ↦ cc (rw bad at h)
    ]

IsChained-validate_rows :
    (p : Platform) (previous : String) (rows : List LedgerRow)
    → IsChained p previous rows
    → validate_rows p previous rows ≡ ok tt
unfolding validate_rows
IsChained-validate_rows p previous [] h = refl
IsChained-validate_rows p previous (row ∷ rows) h =
    rw (IsLinked-validate_row p previous row h.0)
      (IsChained-validate_rows p row.payload.event_hash rows h.1)

-- `validate_ledger_hash_chain` returns `Ok` exactly when the rows are chained from the empty
-- hash: each row's columns repeat its event, each event follows the hash of the one before it,
-- and each hash is that of the event. It never changes the store.
pub validate_iff :
    (p : Platform) (s : Store)
    → (((validate_ledger_hash_chain p s).0 ≡ ok tt) ↔ IsChained p "" s.ledger_events)
      × ((validate_ledger_hash_chain p s).1 ≡ s)
unfolding validate_ledger_hash_chain
validate_iff p s = (
  (validate_rows-IsChained p "" s.ledger_events, IsChained-validate_rows p "" s.ledger_events),
  refl,
)

-- the hash that the next event follows
abbrev pub end_hash : String → List LedgerRow → String
end_hash previous [] = previous
end_hash previous (row ∷ rows) = end_hash row.payload.event_hash rows

chain_append :
    (p : Platform) (previous : String) (rows : List LedgerRow) (row : LedgerRow)
    → IsChained p previous rows
    → IsLinked p (end_hash previous rows) row
    → IsChained p previous (rows ++ row ∷ [])
chain_append p previous [] row h l = (l, tt)
chain_append p previous (r ∷ rows) row h l =
    (h.0, chain_append p r.payload.event_hash rows row h.1 l)

end_hash-latest :
    (p : Platform) (previous : String) (row : LedgerRow) (rows : List LedgerRow)
    → IsChained p previous (row ∷ rows)
    → end_hash previous (row ∷ rows) ≡ latest_event_hash (row ∷ rows)
end_hash-latest p previous row [] h = ap (λ (r : LedgerRow). r.event_hash) (sym h.0.columns)
end_hash-latest p previous row (next ∷ rows) h =
    end_hash-latest p row.payload.event_hash next rows h.1

pub end_hash-eq-latest :
    (p : Platform) (rows : List LedgerRow)
    → IsChained p "" rows
    → end_hash "" rows ≡ latest_event_hash rows
end_hash-eq-latest p [] h = refl
end_hash-eq-latest p (row ∷ rows) h = end_hash-latest p "" row rows h

sealed-IsLinked :
    (p : Platform) (previous : String) (event : LedgerEvent)
    → IsLinked p previous (row_of (sealed p previous event))
sealed-IsLinked p previous event = record { columns = refl; follows = refl; hashed = refl }

-- A ledger that validates still validates after `append_ledger_event`, whether the event is taken
-- or its identifier is in use. A taken event is the last row, behind the rows that were there, and
-- it follows the latest hash; a refused one leaves the store as it was.
pub append-IsChained :
    (p : Platform) (event : LedgerEvent) (s : Store)
    → (validate_ledger_hash_chain p s).0 ≡ ok tt
    → let (r, s') = append_ledger_event p event s in
      ((validate_ledger_hash_chain p s').0 ≡ ok tt)
      × (if has_event event.ledger_event_id s.ledger_events
          then s' ≡ s
          else (r ≡ ok (sealed p (latest_event_hash s.ledger_events) event))
            × (s'.ledger_events
                ≡ s.ledger_events
                  ++ row_of (sealed p (latest_event_hash s.ledger_events) event) ∷ []))
unfolding append_ledger_event
append-IsChained p event s h = elim (Bool-cases (has_event event.ledger_event_id s.ledger_events)) [
  | inl taken ↦ rw taken (h, refl)
  | inr fresh ↦
      let chained = (validate_iff p s).0.0 h in
      let last = sealed p (latest_event_hash s.ledger_events) event in
      rw fresh (
        (validate_iff p (record s { ledger_events = s.ledger_events ++ row_of last ∷ [] })).0.1 (
            chain_append p "" s.ledger_events (row_of last) chained (
              subst (λ hash. IsLinked p hash (row_of last))
                (sym (end_hash-eq-latest p s.ledger_events chained))
                (sealed-IsLinked p (latest_event_hash s.ledger_events) event))),
        (refl, refl),
      )
]
