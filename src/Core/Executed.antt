-- ===== src/Core/Executed.antt =====
-- What a call of `execute` that succeeds has done, and that a ticket allows one such call.
use essence_agent.Base.{
  ℕ, ◌≤◌, String, ◌≡◌, ◌≢◌, refl, sym, ap, ◌∙◌, false, none, some, arith, ◌!=◌, ==-refl, string_eq,
  ◌||◌,
}
use essence_agent.Base.Table.{Table, lookup, update, lookup-append, lookup-insert, lookup-update}
use essence_agent.Base.Outcome.Pure.{ok, err}
use essence_agent.Contracts.{
  RunContract, CapabilityContract, ExecutorManifest, ExecutionTicket, ExecutionTicket-eq, RunStatus,
  SandboxInput, SandboxResult,
}
use essence_agent.Platform.{Platform, hash_json}
use essence_agent.Store.{
  execution_ticket, consume_ticket, record_tool_call, increment_counter, transition_run_status,
  record_sandbox_result, TicketRow,
}
use essence_agent.Core.Errors.{CoreResult, CoreError}
use essence_agent.Core.Manifests.{
  validate_execution_binding, validate_payload, validate_result_ticket_binding,
}
use essence_agent.Core.Authority.{timely, unequal_false}
use essence_agent.Core.Kernel.{
  Kernel, KernelAction, stored, enforce_run_timeout, Executors, run_ticket, accept_answer, execute,
  bound_result,
}

-- A call made on a ticket: the ticket was recorded, unused and in time; the executor that the kernel
-- has for the capability suits ticket and contract, and the input, its answer and the output are
-- valid; the kernel's own result, bound to the ticket, is the one recorded, and the ticket is used.
pub record Performed (p : Platform) (executors : Executors) (now_expiry now_consume : ℕ)
    (ticket : ExecutionTicket) (input : SandboxInput) (result : SandboxResult) (k after : Kernel)
    : Type 0 where
  pub row : TicketRow
  pub capability : CapabilityContract
  pub manifest : ExecutorManifest
  pub raw : SandboxResult
  pub found : lookup ticket.ticket_id k.store.execution_tickets ≡ some row
  pub issued : row.payload ≡ ticket
  pub unused : row.consumed_at ≡ none
  pub in_time : now_expiry ≤ ticket.expires_at
  pub registered : lookup ticket.capability_id k.registry ≡ some capability
  pub installed : lookup ticket.capability_id k.executors ≡ some manifest
  pub bound : validate_execution_binding p ticket capability manifest ≡ ok tt
  pub valid_input : validate_payload p "input" capability.input_schema input.payload ≡ ok tt
  pub answered : executors manifest ticket input ≡ ok raw
  pub valid_output : validate_payload p "output" capability.output_schema result.output ≡ ok tt
  pub result_bound : validate_result_ticket_binding result ticket ≡ ok tt
  pub same_output : result.output ≡ raw.output
  pub output_hash : result.output_hash ≡ hash_json p raw.output
  pub input_hash : result.input_hash ≡ hash_json p (p.input_json input)
  pub first_result : lookup ticket.ticket_id k.store.sandbox_results ≡ none
  pub recorded : lookup ticket.ticket_id after.store.sandbox_results ≡ some result
  pub used :
      lookup ticket.ticket_id after.store.execution_tickets
      ≡ some (record row { consumed_at = some now_consume })
  pub status : lookup ticket.run_id after.store.run_states ≡ some RunStatus.observing

module _ (now : ℕ) (ticket : ExecutionTicket) (k : Kernel) where
  consumed_by :
      (run_ticket now ticket k).0 ≡ ok tt
      → (row : TicketRow) × (lookup ticket.ticket_id k.store.execution_tickets ≡ some row)
        × (row.consumed_at ≡ none)
        × ((run_ticket now ticket k).1.store.execution_tickets
            ≡ update ticket.ticket_id
                (λ old. record old { consumed_at = some now })
                k.store.execution_tickets)
        × ((run_ticket now ticket k).1.store.sandbox_results ≡ k.store.sandbox_results)
  unfolding run_ticket consume_ticket record_tool_call increment_counter transition_run_status
  consumed_by h = ground arith

module _ (ticket : ExecutionTicket) (result : SandboxResult) (k after : Kernel) where
  -- The record of a result, and the step of the run's status behind it.
  recorded_after :
      (stored (record_sandbox_result result) k).0 ≡ ok tt
      → stored
          (transition_run_status ticket.run_id RunStatus.observing)
          (stored (record_sandbox_result result) k).1
        ≡ (ok tt, after)
      → (lookup result.ticket_id k.store.sandbox_results ≡ none)
        × (lookup result.ticket_id after.store.sandbox_results ≡ some result)
        × (after.store.execution_tickets ≡ k.store.execution_tickets)
        × (lookup ticket.run_id after.store.run_states ≡ some RunStatus.observing)
  unfolding record_sandbox_result transition_run_status
  recorded_after h e = ground (
    arith,
    lookup-append result.ticket_id result.ticket_id result k.store.sandbox_results,
    lookup-insert ticket.run_id ticket.run_id RunStatus.observing k.store.run_states,
    ==-refl result.ticket_id,
    ==-refl ticket.run_id,
  )

module _ (p : Platform) (run : RunContract) (capability : CapabilityContract)
    (ticket : ExecutionTicket) (input : SandboxInput) (k : Kernel) (result : SandboxResult) where
  rejected : (e : CoreError) → (accept_answer p run capability ticket input (err e) k).0 ≢ ok result
  unfolding accept_answer transition_run_status
  rejected e h = ground arith

  accepted :
      (answer : CoreResult SandboxResult)
      → (accept_answer p run capability ticket input answer k).0 ≡ ok result
      → (raw : SandboxResult) × (answer ≡ ok raw)
        × ((raw.ticket_id != ticket.ticket_id
              || raw.run_id != ticket.run_id
              || raw.capability_id != ticket.capability_id)
            ≡ false)
        × (validate_payload p "output" capability.output_schema raw.output ≡ ok tt)
        × (result ≡ bound_result p run ticket input raw)
        × (let saved = stored (record_sandbox_result result) k in
            (saved.0 ≡ ok tt)
            × (stored (transition_run_status ticket.run_id RunStatus.observing) saved.1
                ≡ (ok tt, (accept_answer p run capability ticket input answer k).1)))
  unfolding accept_answer
  accepted (ok raw) h =
      (raw, refl, ground arith, ground arith, ground arith, (ground arith, ground arith))
  accepted (err e) h = absurd (rejected e h)

marked :
    (now : ℕ) (id : String) (row : TicketRow) (rows : Table TicketRow)
    → lookup id rows ≡ some row
    → lookup id (update id (λ old. record old { consumed_at = some now }) rows)
      ≡ some (record row { consumed_at = some now })
marked now id row rows h =
    ground (
      arith,
      h,
      ==-refl id,
      lookup-update id id (λ old. record old { consumed_at = some now }) rows,
    )

module _ (p : Platform) (run : RunContract) (ticket : ExecutionTicket) (input : SandboxInput)
    (raw : SandboxResult) where
  raw_names :
      (raw.ticket_id != ticket.ticket_id
          || raw.run_id != ticket.run_id
          || raw.capability_id != ticket.capability_id)
        ≡ false
      → (raw.ticket_id ≡ ticket.ticket_id)
        × (raw.run_id ≡ ticket.run_id)
        × (raw.capability_id ≡ ticket.capability_id)
  raw_names h = (
    unequal_false raw.ticket_id ticket.ticket_id (ground arith),
    unequal_false raw.run_id ticket.run_id (ground arith),
    unequal_false raw.capability_id ticket.capability_id (ground arith),
  )

  unequal_refl : (x : String) → (x != x) ≡ false
  unequal_refl x = ground (arith, ==-refl x)

  binds :
      raw.ticket_id ≡ ticket.ticket_id
      → raw.run_id ≡ ticket.run_id
      → raw.capability_id ≡ ticket.capability_id
      → validate_result_ticket_binding (bound_result p run ticket input raw) ticket ≡ ok tt
  unfolding validate_result_ticket_binding
  binds a b c = rw (a, b, c) (simp unequal_refl)

module _ (p : Platform) (executors : Executors) (now_timeout now_expiry now_consume : ℕ)
    (ticket : ExecutionTicket) (input : SandboxInput) (k : Kernel) (result : SandboxResult) where
  abbrev run_by : KernelAction SandboxResult
  run_by = execute p executors now_timeout now_expiry now_consume ticket input

  abbrev timed : RunContract → Kernel
  timed run = (enforce_run_timeout p now_timeout run k).1

  raw_found :
      (run_by k).0 ≡ ok result
      → (run : RunContract) × (row : TicketRow) × (capability : CapabilityContract)
        × (manifest : ExecutorManifest) × (lookup ticket.run_id k.runs ≡ some run)
        × ((enforce_run_timeout p now_timeout run k).0 ≡ ok tt)
        × (now_expiry ≤ ticket.expires_at)
        × (lookup ticket.ticket_id (timed run).store.execution_tickets ≡ some row)
        × ((row.payload != ticket) ≡ false)
        × (lookup ticket.capability_id (timed run).registry ≡ some capability)
        × (lookup ticket.capability_id (timed run).executors ≡ some manifest)
  unfolding execute execution_ticket
  raw_found h = ground arith

  abbrev ran : RunContract → Kernel
  ran run = (run_ticket now_consume ticket (timed run)).1

  abbrev answer : ExecutorManifest → CoreResult SandboxResult
  answer manifest = executors manifest ticket input

  raw_ran :
      (run : RunContract) (row : TicketRow) (capability : CapabilityContract)
      (manifest : ExecutorManifest)
      → lookup ticket.run_id k.runs ≡ some run
      → (enforce_run_timeout p now_timeout run k).0 ≡ ok tt
      → lookup ticket.ticket_id (timed run).store.execution_tickets ≡ some row
      → lookup ticket.capability_id (timed run).registry ≡ some capability
      → lookup ticket.capability_id (timed run).executors ≡ some manifest
      → (run_by k).0 ≡ ok result
      → (validate_execution_binding p ticket capability manifest ≡ ok tt)
        × (validate_payload p "input" capability.input_schema input.payload ≡ ok tt)
        × ((run_ticket now_consume ticket (timed run)).0 ≡ ok tt)
        × (accept_answer p run capability ticket input (answer manifest) (ran run)
            ≡ (ok result, (run_by k).1))
  unfolding execute execution_ticket
  raw_ran run row capability manifest r t q c m h = ground arith

  -- A call of `execute` that succeeds was made on a ticket that was recorded, unused and in time, by
  -- the installed executor, which suits ticket and contract, on valid input. Its result is the first
  -- that is recorded for the ticket: the executor's answer, valid by the output schema, with the
  -- references of the ticket and the hashes of input and output. The ticket is then used and the run
  -- observing.
  pub executed_lem :
      (run_by k).0 ≡ ok result
      → Performed p executors now_expiry now_consume ticket input result k (run_by k).1
  executed_lem h =
      let (run, row, capability, manifest, r, t, in_time, q, same, c, m) = raw_found h in
      let (bound, valid_input, ran_ok, taken) = raw_ran run row capability manifest r t q c m h in
      let start = timely p now_timeout run k t in
      let (old, oq, unused, tickets, results) = consumed_by now_consume ticket (timed run) ran_ok in
      let (raw, answered, bare, valid, made, done) =
        accepted p run capability ticket input (ran run) result (answer manifest)
          (ap (λ x. x.0) taken) in
      let (same_ticket, same_run, same_capability) = raw_names p run ticket input raw bare in
      let id = ap (λ x. x.ticket_id) made ∙ same_ticket in
      let (fresh, kept, untouched, status) =
        recorded_after ticket result (ran run) (run_by k).1 done.0
          (done.1 ∙ ap (λ x. (ok tt, x.1)) taken) in
      record {
        row = row;
        capability = capability;
        manifest = manifest;
        raw = raw;
        found = ap (λ x. lookup ticket.ticket_id x.store.execution_tickets) (sym start) ∙ q;
        issued = unequal_false row.payload ticket same;
        unused = ground arith;
        in_time = in_time;
        registered = ap (λ x. lookup ticket.capability_id x.registry) (sym start) ∙ c;
        installed = ap (λ x. lookup ticket.capability_id x.executors) (sym start) ∙ m;
        bound = bound;
        valid_input = valid_input;
        answered = answered;
        valid_output =
            ap (λ x. validate_payload p "output" capability.output_schema x.output) made ∙ valid;
        result_bound =
            ap (λ x. validate_result_ticket_binding x ticket) made
            ∙ binds p run ticket input raw same_ticket same_run same_capability;
        same_output = ap (λ x. x.output) made;
        output_hash = ap (λ x. x.output_hash) made;
        input_hash = ap (λ x. x.input_hash) made;
        first_result =
            ap (λ x. lookup ticket.ticket_id x.store.sandbox_results) (sym start)
            ∙ ap (lookup ticket.ticket_id) (sym results)
            ∙ ap (λ i. lookup i (ran run).store.sandbox_results) (sym id)
            ∙ fresh;
        recorded = ap (λ i. lookup i (run_by k).1.store.sandbox_results) (sym id) ∙ kept;
        used =
            ap (lookup ticket.ticket_id) (untouched ∙ tickets)
            ∙ marked now_consume ticket.ticket_id row (timed run).store.execution_tickets q;
        status = status;
      }
