-- ===== src/Core/Committed.antt =====
-- What `verify` and `commit` have done where they succeed.
use essence_agent.Base.{
  ℕ, String, ◌≡◌, ◌≢◌, ◌⊎◌, inl, inr, ap, ◌∙◌, true, false, none, some, List, [], ◌∷◌, ◌++◌, arith,
  ◌==◌, ◌!=◌, ==_iff, ==-refl, string_eq, is_empty, All, Bool-cases,
}
use essence_agent.Base.Table.{Table, lookup, insert, lookup-append, lookup-insert}
use essence_agent.Base.Outcome.Pure.{ok}
use essence_agent.Contracts.{
  SandboxResult, SandboxResult-eq, Proof, LedgerEvent, EventResult, EventResult-eq, RunStatus,
}
use essence_agent.Platform.{Platform, hash_json}
use essence_agent.Store.{
  sandbox_result, execution_ticket, transition_run_status, record_proof, proof, append_ledger_event,
  TicketRow, proof_evidence_hash, sealed, row_of, latest_event_hash, has_event,
}
use essence_agent.Core.Manifests.{validate_result_ticket_binding, validate_event_proof_binding}
use essence_agent.Core.Kernel.{
  Kernel, proof_for, verify, check_proofs, validate_event_proofs, commit,
}
use essence_agent.Core.Authority.{unequal_false}

module _ (p : Platform) (uuid : String) (now : ℕ) (result : SandboxResult) (k : Kernel)
    (evidence : Proof) where
  raw_verified :
      (verify p uuid now result k).0 ≡ ok evidence
      → (stored_result : SandboxResult) × (row : TicketRow) × (result.success ≡ true)
        × ((result.output_hash != hash_json p result.output) ≡ false)
        × (lookup result.ticket_id k.store.sandbox_results ≡ some stored_result)
        × ((stored_result != result) ≡ false)
        × (lookup result.ticket_id k.store.execution_tickets ≡ some row)
        × (validate_result_ticket_binding result row.payload ≡ ok tt)
        × (evidence ≡ proof_for p uuid now result)
        × (lookup evidence.proof_id k.store.proofs ≡ none)
        × ((verify p uuid now result k).1.store.proofs
            ≡ k.store.proofs ++ (evidence.proof_id, evidence) ∷ [])
        × ((verify p uuid now result k).1.store.run_states
            ≡ insert result.run_id RunStatus.verifying k.store.run_states)
  unfolding verify sandbox_result execution_ticket transition_run_status record_proof
  raw_verified h = ground arith

  -- `verify` gives a proof only for a successful result, whose hash of the output is right, which is
  -- the very result that the store has for its ticket, and which is bound to that ticket. The proof
  -- is made of the result, its hash is that of the evidence, and it is new in the store; the run is
  -- then verifying.
  pub verified_lem :
      (verify p uuid now result k).0 ≡ ok evidence
      → (result.success ≡ true)
        × (result.output_hash ≡ hash_json p result.output)
        × (lookup result.ticket_id k.store.sandbox_results ≡ some result)
        × ((row : TicketRow) × (lookup result.ticket_id k.store.execution_tickets ≡ some row)
            × (validate_result_ticket_binding result row.payload ≡ ok tt))
        × (evidence ≡ proof_for p uuid now result)
        × (evidence.hash ≡ proof_evidence_hash p result)
        × (lookup evidence.proof_id k.store.proofs ≡ none)
        × (lookup evidence.proof_id (verify p uuid now result k).1.store.proofs ≡ some evidence)
        × (lookup result.run_id (verify p uuid now result k).1.store.run_states
            ≡ some RunStatus.verifying)
  verified_lem h =
      let (found, row, success, output, q, same, t, bound, made, fresh, proofs, states) =
        raw_verified h in
      (
        success,
        unequal_false result.output_hash (hash_json p result.output) output,
        q ∙ ap some (unequal_false found result same),
        (row, t, bound),
        made,
        ap (λ x. x.hash) made,
        fresh,
        ap (lookup evidence.proof_id) proofs
            ∙ ground (
              arith,
              lookup-append evidence.proof_id evidence.proof_id evidence k.store.proofs,
              ==-refl evidence.proof_id,
            ),
        ap (lookup result.run_id) states
            ∙ ground (
              arith,
              lookup-insert result.run_id result.run_id RunStatus.verifying k.store.run_states,
              ==-refl result.run_id,
            ),
      )

-- Each reference is one of a recorded proof that is bound to the event.
abbrev pub Proven : LedgerEvent → List String → Kernel → Type 0
Proven event refs k =
    All
      (λ ref.
        (evidence : Proof) × (lookup ref k.store.proofs ≡ some evidence)
        × (validate_event_proof_binding event evidence ≡ ok tt))
      refs

module _ (p : Platform) (event : LedgerEvent) where
  first_checked :
      (ref : String) (refs : List String) (k : Kernel)
      → (check_proofs event (ref ∷ refs) k).0 ≡ ok tt
      → (evidence : Proof) × (lookup ref k.store.proofs ≡ some evidence)
        × (validate_event_proof_binding event evidence ≡ ok tt)
        × ((check_proofs event refs k).0 ≡ ok tt)
  unfolding check_proofs proof
  first_checked ref refs k h = ground arith

  checked :
      (refs : List String) (k : Kernel)
      → (check_proofs event refs k).0 ≡ ok tt
      → Proven event refs k × ((check_proofs event refs k).1 ≡ k)
  unfolding check_proofs proof
  checked [] k h = ground arith
  checked (ref ∷ refs) k h =
      let (evidence, q, bound, rest) = first_checked ref refs k h in
      let (others, same) = checked refs k rest in
      (((evidence, q, bound), others), ground (arith, q, bound, same))

  proven :
      (k : Kernel)
      → (validate_event_proofs event k).0 ≡ ok tt
      → (is_empty event.proof_refs ≡ false)
        × Proven event event.proof_refs k
        × ((validate_event_proofs event k).1 ≡ k)
  unfolding validate_event_proofs
  proven k h = ground (arith, checked event.proof_refs k)

  abbrev committed_by : Kernel → LedgerEvent
  committed_by k = sealed p (latest_event_hash k.store.ledger_events) event

  raw_failed :
      (committed : LedgerEvent) (k : Kernel)
      → (event.result == EventResult.success) ≡ false
      → (commit p event k).0 ≡ ok committed
      → (committed ≡ committed_by k)
        × (has_event event.ledger_event_id k.store.ledger_events ≡ false)
        × ((commit p event k).1.store ≡ record k.store {
          run_states = insert event.run_id RunStatus.persisting k.store.run_states;
          ledger_events = k.store.ledger_events ++ row_of committed ∷ [];
        })
  unfolding commit append_ledger_event transition_run_status
  raw_failed committed k e h = ground arith

  checks_first :
      (committed : LedgerEvent) (k : Kernel)
      → (event.result == EventResult.success) ≡ true
      → (commit p event k).0 ≡ ok committed
      → (validate_event_proofs event k).0 ≡ ok tt
  unfolding commit
  checks_first committed k e h = ground arith

  raw_succeeded :
      (committed : LedgerEvent) (k : Kernel)
      → (event.result == EventResult.success) ≡ true
      → (validate_event_proofs event k).0 ≡ ok tt
      → (validate_event_proofs event k).1 ≡ k
      → (commit p event k).0 ≡ ok committed
      → (committed ≡ committed_by k)
        × (has_event event.ledger_event_id k.store.ledger_events ≡ false)
        × ((commit p event k).1.store ≡ record k.store {
          run_states =
              insert event.run_id RunStatus.completed
                (insert event.run_id RunStatus.persisting k.store.run_states);
          ledger_events = k.store.ledger_events ++ row_of committed ∷ [];
        })
  unfolding commit append_ledger_event transition_run_status
  raw_succeeded committed k e valid same h = ground (arith, valid, same)

  -- What a committed event has behind it: a successful one its proofs, and a run that is completed,
  -- any other a run that is persisting.
  abbrev pub Settled : Kernel → Kernel → Type 0
  Settled k after =
      ((event.result ≡ EventResult.success)
        × (is_empty event.proof_refs ≡ false)
        × Proven event event.proof_refs k
        × (lookup event.run_id after.store.run_states ≡ some RunStatus.completed))
      ⊎ ((event.result ≢ EventResult.success)
          × (lookup event.run_id after.store.run_states ≡ some RunStatus.persisting))

  settled_store :
      (committed : LedgerEvent) (k : Kernel) (states : Table RunStatus)
      → (commit p event k).1.store ≡ record k.store {
        run_states = states;
        ledger_events = k.store.ledger_events ++ row_of committed ∷ [];
      }
      → (commit p event k).1.store ≡ record k.store {
        run_states = (commit p event k).1.store.run_states;
        ledger_events = k.store.ledger_events ++ row_of committed ∷ [];
      }
  settled_store committed k states h = ground (arith, h)

  now_at :
      (status : RunStatus) (states : Table RunStatus)
      → lookup event.run_id (insert event.run_id status states) ≡ some status
  now_at status states =
      ground (arith, lookup-insert event.run_id event.run_id status states, ==-refl event.run_id)

  -- An event that is committed was not in the ledger. It is sealed with the hash of the event before
  -- it and its own, and stands behind the others in the ledger; of the rest of the store, only the
  -- statuses of runs change. A successful event cites at least one proof, each of them recorded and
  -- bound to the event, and its run is completed; the run of any other event is persisting.
  pub committed_lem :
      (committed : LedgerEvent) (k : Kernel)
      → (commit p event k).0 ≡ ok committed
      → (committed ≡ sealed p (latest_event_hash k.store.ledger_events) event)
        × (has_event event.ledger_event_id k.store.ledger_events ≡ false)
        × ((commit p event k).1.store ≡ record k.store {
          run_states = (commit p event k).1.store.run_states;
          ledger_events = k.store.ledger_events ++ row_of committed ∷ [];
        })
        × Settled k (commit p event k).1
  committed_lem committed k h = elim (Bool-cases (event.result == EventResult.success)) [
    | inl success ↦
        let valid = checks_first committed k success h in
        let (cited, proofs, same) = proven k valid in
        let (made, new, store) = raw_succeeded committed k success valid same h in
        (
          made,
          new,
          settled_store committed k _ store,
          inl (
            (==_iff event.result EventResult.success).0 success,
            cited,
            proofs,
            ap (λ s. lookup event.run_id s.run_states) store ∙ now_at RunStatus.completed _,
          ),
        )
    | inr other ↦
        let (made, new, store) = raw_failed committed k other h in
        (
          made,
          new,
          settled_store committed k _ store,
          inr (
            λ e. ground (arith, (==_iff event.result EventResult.success).1 e, other),
            ap (λ s. lookup event.run_id s.run_states) store ∙ now_at RunStatus.persisting _,
          ),
        )
  ]
