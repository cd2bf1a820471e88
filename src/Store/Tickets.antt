-- ===== src/Store/Tickets.antt =====
-- Execution tickets: `record_ticket` and `consume_ticket`.
use essence_agent.Base.{
  ℕ, ◌+◌, ◌≤◌, String, ◌≡◌, refl, sym, ap, subst, ◌⊎◌, inl, inr, false, none, some, List, [], ◌∷◌,
  arith, ◌==◌, ==_iff, string_eq, if◌then◌else◌, Bool-cases, Option-cases,
}
use essence_agent.Base.Table.{lookup, lookup-update, lookup-append}
use essence_agent.Base.Outcome.Pure.{Result, ok, err, Result-cases}
use essence_agent.Contracts.{ExecutionTicket}
use essence_agent.Store.{
  Store, StoreError, TicketRow, ticket_consumed, consume_ticket, record_ticket,
}

-- A call of the store that concerns tickets.
pub data TicketCall : Type 0 where
  issue : ExecutionTicket → TicketCall
  consume : ℕ → String → TicketCall

unfoldable pub ticket_call : TicketCall → Store → Result StoreError (Unit {0}) × Store
ticket_call (issue ticket) s = record_ticket ticket s
ticket_call (consume now ticket_id) s = consume_ticket now ticket_id s

unfoldable pub ticket_calls : List TicketCall → Store → Store
ticket_calls [] s = s
ticket_calls (call ∷ calls) s = ticket_calls calls (ticket_call call s).1

abbrev consumed_by : String → TicketCall → Result StoreError (Unit {0}) → ℕ
consumed_by ticket_id (consume now other) (ok _) = if other == ticket_id then 1 else 0
consumed_by ticket_id _ _ = 0

-- How many of the calls consume the ticket.
unfoldable pub consumptions : String → List TicketCall → Store → ℕ
consumptions ticket_id [] s = 0
consumptions ticket_id (call ∷ calls) s =
    consumed_by ticket_id call (ticket_call call s).0
    + consumptions ticket_id calls (ticket_call call s).1

-- The row of a ticket that is used, with the time when it was.
abbrev pub IsConsumed : String → Store → Type 0
IsConsumed ticket_id s =
    (row : TicketRow) × (now : ℕ) × (lookup ticket_id s.execution_tickets ≡ some row)
    × (row.consumed_at ≡ some now)

consumed_refused :
    (now : ℕ) (ticket_id : String) (s : Store)
    → IsConsumed ticket_id s
    → consume_ticket now ticket_id s ≡ (err (ticket_consumed ticket_id), s)
unfolding consume_ticket
consumed_refused now ticket_id s (row, since, found, used) = ground arith

consume-IsConsumed :
    (now : ℕ) (ticket_id : String) (s : Store)
    → (consume_ticket now ticket_id s).0 ≡ ok tt
    → IsConsumed ticket_id (consume_ticket now ticket_id s).1
unfolding consume_ticket
consume-IsConsumed now ticket_id s h = elim (Option-cases (lookup ticket_id s.execution_tickets)) [
  | inl missing ↦ absurd (ground arith)
  | inr (row, found) ↦ elim (Option-cases row.consumed_at) [
    | inl unused ↦ (
      record row { consumed_at = some now },
      now,
      ground (
        arith,
        lookup-update ticket_id ticket_id (λ (r : TicketRow). record r { consumed_at = some now })
            s.execution_tickets,
      ),
      refl,
    )
    | inr (since, used) ↦ absurd (ground arith)
  ]
]

kept_by_other :
    (now : ℕ) (ticket_id other : String) (s : Store)
    → (other == ticket_id) ≡ false
    → IsConsumed ticket_id s
    → IsConsumed ticket_id (consume_ticket now other s).1
unfolding consume_ticket
kept_by_other now ticket_id other s foreign (row, since, found, used) = (
  row,
  since,
  ground (
    arith,
    lookup-update other ticket_id (λ (r : TicketRow). record r { consumed_at = some now })
        s.execution_tickets,
  ),
  used,
)

-- Neither a new ticket nor the use of another one touches the row of a ticket that is used.
kept-IsConsumed :
    (ticket_id : String) (call : TicketCall) (s : Store)
    → IsConsumed ticket_id s
    → IsConsumed ticket_id (ticket_call call s).1
unfolding ticket_call record_ticket
kept-IsConsumed ticket_id (issue ticket) s (row, since, found, used) = (
  row,
  since,
  ground (
    arith,
    lookup-append ticket.ticket_id ticket_id (record { payload = ticket; consumed_at = none })
        s.execution_tickets,
  ),
  used,
)
kept-IsConsumed ticket_id (consume now other) s h = elim (Bool-cases (other == ticket_id)) [
  | inl same ↦
      subst (λ (st : Store). IsConsumed ticket_id st)
        (sym (
          subst (λ id. (consume_ticket now id s).1 ≡ s) (sym ((==_iff other ticket_id).0 same))
            (ap (λ r. r.1) (consumed_refused now ticket_id s h))))
        h
  | inr foreign ↦ kept_by_other now ticket_id other s foreign h
]

consumed_foreign :
    (now : ℕ) (ticket_id other : String) (r : Result StoreError (Unit {0}))
    → (other == ticket_id) ≡ false
    → consumed_by ticket_id (consume now other) r ≡ 0
consumed_foreign now ticket_id other (ok _) h = rw h refl
consumed_foreign now ticket_id other (err e) h = refl

-- One call consumes the ticket, which is then used, or it does not.
call_cases :
    (ticket_id : String) (call : TicketCall) (s : Store)
    → (consumed_by ticket_id call (ticket_call call s).0 ≡ 0)
      ⊎ ((consumed_by ticket_id call (ticket_call call s).0 ≡ 1)
          × IsConsumed ticket_id (ticket_call call s).1)
unfolding ticket_call
call_cases ticket_id (issue ticket) s = inl refl
call_cases ticket_id (consume now other) s = elim (Result-cases (consume_ticket now other s).0) [
  | inr (e, refused) ↦ inl (rw refused refl)
  | inl (done, used) ↦ elim (Bool-cases (other == ticket_id)) [
    | inr foreign ↦ inl (consumed_foreign now ticket_id other _ foreign)
    | inl same ↦ inr (
      rw used (rw same refl),
      subst (λ id. IsConsumed id (consume_ticket now other s).1) ((==_iff other ticket_id).0 same)
          (consume-IsConsumed now other s used),
    )
  ]
]

not_consumed :
    (ticket_id : String) (call : TicketCall) (s : Store)
    → IsConsumed ticket_id s
    → consumed_by ticket_id call (ticket_call call s).0 ≡ 0
unfolding ticket_call
not_consumed ticket_id (issue ticket) s h = refl
not_consumed ticket_id (consume now other) s h = elim (Bool-cases (other == ticket_id)) [
  | inl same ↦
      subst (λ id. consumed_by ticket_id (consume now id) (consume_ticket now id s).0 ≡ 0)
        (sym ((==_iff other ticket_id).0 same)) (rw (consumed_refused now ticket_id s h) refl)
  | inr foreign ↦ consumed_foreign now ticket_id other _ foreign
]

unused_after :
    (ticket_id : String) (calls : List TicketCall) (s : Store)
    → IsConsumed ticket_id s
    → consumptions ticket_id calls s ≡ 0
unfolding consumptions
unused_after ticket_id [] s h = refl
unused_after ticket_id (call ∷ calls) s h =
    rw (unused_after ticket_id calls (ticket_call call s).1 (kept-IsConsumed ticket_id call s h))
      (rw (not_consumed ticket_id call s h) refl)

-- Whatever tickets are recorded, and whatever tickets are consumed in between, from any store and
-- in any order, a ticket is consumed at most once.
pub ticket_used_once :
    (ticket_id : String) (calls : List TicketCall) (s : Store) → consumptions ticket_id calls s ≤ 1
unfolding consumptions
ticket_used_once ticket_id [] s = omega arith
ticket_used_once ticket_id (call ∷ calls) s = elim (call_cases ticket_id call s) [
  | inl idle ↦ rw idle (omega (arith, ticket_used_once ticket_id calls (ticket_call call s).1))
  | inr (used, after) ↦
      rw used (omega (arith, unused_after ticket_id calls (ticket_call call s).1 after))
]
