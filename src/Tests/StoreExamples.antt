-- ===== src/Tests/StoreExamples.antt =====
-- The store's theorems at the states of the run, and at short sequences of calls.
use essence_agent.Base.{
  ℕ, min, ◌-◌, ◌+◌, ◌≤◌, ◌<◌, ◌^◌, String, ◌≡◌, ◌≢◌, ◌↔◌, ◌⊎◌, inl, inr, ap, sym, ◌∙◌, refl, arith,
  Bool, true, false, Option, none, some, List, [], ◌∷◌, ◌==◌, string_eq, ◌++◌, length, All,
  if◌then◌else◌,
}
use essence_agent.Base
use essence_agent.Base.Table.{lookup}
use essence_agent.Base.Outcome.Pure.{ok, err}
use mathlib.Core.List.{Sublist}
use essence_agent.Contracts.{RunStatus, LedgerEvent, EventResult, Budget}
use essence_agent.Contracts
use essence_agent.Store.{
  Store, empty_store, empty_report, AuditReplayReport, LedgerRow, sealed, row_of, latest_event_hash,
  has_event, initialize_run_budget, transition_run_status, invalid_transition,
  is_allowed_transition, append_ledger_event, validate_ledger_hash_chain, replay_ledger_audit,
  verify_successful_ledger_event, Counter, Usage, i64_max, sqlite_conversion,
}
use essence_agent.Store
use essence_agent.Store.Lifecycle.{
  run_calls, accepted, completed_in_order, ended_run_stays, transition_cases, phase, phase-le,
}
use essence_agent.Store.Budgets.{
  use_budget, granted, asked, allowance, budget_exact, fresh_budget_exact,
}
use essence_agent.Store.Tickets.{TicketCall, consumptions, ticket_used_once}
use essence_agent.Store.Chain.{IsChained, validate_iff, append-IsChained}
use essence_agent.Store.Account.{IsAccounted}
use essence_agent.Store.Accounted.{IsAccounted-iff}
use essence_agent.Store.Replay.{Stands, replay_iff}
use essence_agent.Store.Report.{successes, proofs_cited, report_counts}
use essence_agent.Tests.World.{plain, intent}
use essence_agent.Tests.Pipeline.{ticket, event, sealed_event, committed}

replay_iff_example :
    (((report : AuditReplayReport) × ((replay_ledger_audit plain committed.store).0 ≡ ok report))
      ↔ (IsChained plain "" committed.store.ledger_events
          × All (Stands plain committed.store) committed.store.ledger_events))
    × ((replay_ledger_audit plain committed.store).1 ≡ committed.store)
replay_iff_example = replay_iff plain committed.store

IsAccounted-iff_example :
    ((verify_successful_ledger_event plain committed.store sealed_event empty_report).0 ≡ ok tt)
    ↔ IsAccounted plain committed.store sealed_event
IsAccounted-iff_example = IsAccounted-iff plain committed.store sealed_event empty_report

abbrev pub report : AuditReplayReport
report = record {
  ledger_events = 1;
  successful_events = 1;
  policy_decisions = 1;
  approval_grants = 1;
  capability_contracts = 1;
  executor_manifests = 1;
  execution_tickets = 1;
  sandbox_results = 1;
  proofs = 1;
  last_event_hash = some sealed_event.event_hash;
}

replayed : (replay_ledger_audit plain committed.store).0 ≡ ok report
unfolding replay_ledger_audit validate_ledger_hash_chain Base.string_eq
    essence_agent.Core.Kernel.ledger_event_for_success Contracts.EventResult-eq
    Store.execution_ticket Store.verify_event_ticket_binding Store.audit_expect_eq
    Store.capability_contract Store.verify_event_capability_binding Store.executor_manifest
    Store.verify_event_executor_binding Store.policy_decision Store.verify_event_policy_binding
    Contracts.Decision-eq Store.approval_grants_for_policy_decision
    Store.approval_grant_matches_event Store.sandbox_result Store.verify_event_result_binding
    Base.option_eq Base.bool_eq Store.proof Store.verify_event_proof_binding
    Store.verify_proof_evidence_hash Store.proof_evidence_hash
replayed = refl

report_counts_example :
    (1 ≡ length committed.store.ledger_events)
    × (1 ≡ successes committed.store.ledger_events)
    × (1 ≡ successes committed.store.ledger_events)
    × (1 ≡ successes committed.store.ledger_events)
    × (1 ≡ successes committed.store.ledger_events)
    × (1 ≡ successes committed.store.ledger_events)
    × (1 ≡ successes committed.store.ledger_events)
    × (1 ≡ proofs_cited committed.store.ledger_events)
    × (1 ≤ successes committed.store.ledger_events)
report_counts_example = report_counts plain committed.store report replayed

validate_iff_example :
    (((validate_ledger_hash_chain plain committed.store).0 ≡ ok tt)
      ↔ IsChained plain "" committed.store.ledger_events)
    × ((validate_ledger_hash_chain plain committed.store).1 ≡ committed.store)
validate_iff_example = validate_iff plain committed.store

abbrev second : LedgerEvent
second = record event { ledger_event_id = "le_2"; result = EventResult.failed }

valid : (validate_ledger_hash_chain plain committed.store).0 ≡ ok tt
unfolding validate_ledger_hash_chain Base.string_eq
    essence_agent.Core.Kernel.ledger_event_for_success
valid = refl

append-IsChained_example :
    let (r, s) = append_ledger_event plain second committed.store in
    ((validate_ledger_hash_chain plain s).0 ≡ ok tt)
    × (if has_event "le_2" committed.store.ledger_events
        then s ≡ committed.store
        else (r ≡ ok (sealed plain (latest_event_hash committed.store.ledger_events) second))
          × (s.ledger_events
              ≡ committed.store.ledger_events
                ++ row_of (sealed plain (latest_event_hash committed.store.ledger_events) second)
                  ∷ []))
append-IsChained_example = append-IsChained plain second committed.store valid

abbrev statuses : List (String × RunStatus)
statuses =
    ("r", RunStatus.admitted)
    ∷ ("r", RunStatus.running_heartbeat)
    ∷ ("other", RunStatus.admitted)
    ∷ ("r", RunStatus.completed)
    ∷ ("r", RunStatus.executing)
    ∷ ("r", RunStatus.observing)
    ∷ ("r", RunStatus.verifying)
    ∷ ("r", RunStatus.persisting)
    ∷ ("r", RunStatus.completed)
    ∷ []

completed_in_order_example :
    Sublist
      (RunStatus.executing ∷ RunStatus.observing ∷ RunStatus.verifying ∷ RunStatus.persisting
        ∷ RunStatus.completed ∷ [])
      (accepted "r" statuses empty_store)
unfolding run_calls transition_run_status is_allowed_transition Base.string_eq
    Contracts.RunStatus-eq
completed_in_order_example = completed_in_order "r" statuses empty_store refl refl

abbrev cancelled_run : Store
cancelled_run = record empty_store { run_states = ("r", RunStatus.cancelled) ∷ [] }

ended_run_stays_example :
    lookup "r" (run_calls statuses cancelled_run).run_states ≡ some RunStatus.cancelled
unfolding Base.string_eq
ended_run_stays_example = ended_run_stays "r" RunStatus.cancelled statuses cancelled_run refl refl

abbrev run_r : String
run_r = "r"

abbrev run_q : String
run_q = "q"

transition_cases_example :
    (((transition_run_status "r" RunStatus.executing cancelled_run).0 ≡ ok tt)
      × (is_allowed_transition (lookup "r" cancelled_run.run_states) RunStatus.executing ≡ true)
      × (lookup "q" (transition_run_status "r" RunStatus.executing cancelled_run).1.run_states ≡ (
          if run_r == run_q
          then some RunStatus.executing
          else lookup "q" cancelled_run.run_states)))
    ⊎ (((transition_run_status "r" RunStatus.executing cancelled_run).0
          ≡ err (invalid_transition (lookup "r" cancelled_run.run_states) RunStatus.executing))
        × (is_allowed_transition (lookup "r" cancelled_run.run_states) RunStatus.executing ≡ false)
        × ((transition_run_status "r" RunStatus.executing cancelled_run).1 ≡ cancelled_run))
transition_cases_example = transition_cases "q" "r" RunStatus.executing cancelled_run

phase-le_example : phase RunStatus.executing ≤ phase RunStatus.observing
unfolding is_allowed_transition
phase-le_example = phase-le RunStatus.executing RunStatus.observing refl

abbrev ticket_calls : List TicketCall
ticket_calls =
    TicketCall.consume 1 "ticket_1"
    ∷ TicketCall.issue ticket
    ∷ TicketCall.consume 2 "ticket_1"
    ∷ TicketCall.consume 3 "ticket_1"
    ∷ []

ticket_used_once_example : consumptions "ticket_1" ticket_calls empty_store ≤ 1
ticket_used_once_example = ticket_used_once "ticket_1" ticket_calls empty_store

abbrev budget_calls : List (Counter × String)
budget_calls =
    (Counter.tool_calls, "r")
    ∷ (Counter.steps, "r")
    ∷ (Counter.tool_calls, "r")
    ∷ (Counter.tool_calls, "q")
    ∷ (Counter.tool_calls, "r")
    ∷ []

-- a timeout that the database cannot hold
abbrev long_budget : Budget
long_budget = record intent.budget { timeout_ms = 2 ^ 63 }

long_refused :
    initialize_run_budget "r" long_budget empty_store ≡ (err sqlite_conversion, empty_store)
unfolding initialize_run_budget
long_refused = refl

fresh_budget_exact_example :
    ((i64_max < intent.budget.timeout_ms)
      × (initialize_run_budget "r" intent.budget empty_store
          ≡ (err sqlite_conversion, empty_store)))
    ⊎ ((intent.budget.timeout_ms ≤ i64_max)
        × ((initialize_run_budget "r" intent.budget empty_store).0 ≡ ok tt)
        × (granted Counter.tool_calls "r" budget_calls
              (initialize_run_budget "r" intent.budget empty_store).1
            ≡ min
                (asked Counter.tool_calls "r" budget_calls)
                (allowance Counter.tool_calls intent.budget))
        × (((long_budget.timeout_ms ≤ i64_max)
              × (initialize_run_budget "r" long_budget
                    (initialize_run_budget "r" intent.budget empty_store).1
                  ≡ (ok tt, (initialize_run_budget "r" intent.budget empty_store).1)))
            ⊎ ((i64_max < long_budget.timeout_ms)
                × (initialize_run_budget "r" long_budget
                      (initialize_run_budget "r" intent.budget empty_store).1
                    ≡ (
                      err sqlite_conversion,
                      (initialize_run_budget "r" intent.budget empty_store).1,
                    )))))
fresh_budget_exact_example =
    fresh_budget_exact Counter.tool_calls "r" intent.budget long_budget budget_calls empty_store
      refl

abbrev row : Usage
row = record {
  max_steps = 5;
  max_heartbeats = 5;
  max_tool_calls = 3;
  timeout_ms = 1;
  steps = 0;
  heartbeats = 0;
  tool_calls = 1;
}

abbrev used_store : Store
used_store = record empty_store { run_usage = ("r", row) ∷ [] }

budget_exact_example :
    (granted Counter.tool_calls "r" budget_calls used_store
      ≡ min (asked Counter.tool_calls "r" budget_calls) 2)
    × ((u : Usage) × (lookup "r" (use_budget budget_calls used_store).run_usage ≡ some u)
        × (u.tool_calls ≡ 1 + granted Counter.tool_calls "r" budget_calls used_store)
        × (u.max_tool_calls ≡ 3))
unfolding Base.string_eq
budget_exact_example =
    budget_exact Counter.tool_calls "r" budget_calls used_store row refl (omega arith)
