-- ===== src/Store/Runs.antt =====
-- Run states and run budgets: `run_states` and `run_usage`.
use essence_agent.Base.{
  ℕ, ◌+◌, ◌-◌, ◌^◌, ltb, String, Bool, true, false, Option, none, some, leb, if◌then◌else◌, ◌==◌,
}
use essence_agent.Base.Table.{lookup, insert, update, insert_new}
use essence_agent.Base.Outcome.Action.{gets, raise_if, modify, raise, ◌>>=◌, ◌>>◌, or_raise}
use essence_agent.Base.Outcome.Pure.{ok, err}
use essence_agent.Contracts.{RunStatus, RunStatus-eq, Budget}
use essence_agent.Contracts.RunStatus.{
  admitted, running_heartbeat, awaiting_approval, executing, observing, verifying, persisting,
  completed, failed, timed_out, cancelled, blocked, rolled_back,
}
use essence_agent.Store.State.{
  StoreAction, Usage, invalid_transition, budget_exceeded, sqlite_no_rows, sqlite_conversion,
}

unfoldable pub is_allowed_transition : Option RunStatus → RunStatus → Bool
is_allowed_transition none admitted = true
is_allowed_transition none _ = false
is_allowed_transition (some admitted) running_heartbeat = true
is_allowed_transition (some admitted) awaiting_approval = true
is_allowed_transition (some admitted) blocked = true
is_allowed_transition (some admitted) executing = true
is_allowed_transition (some admitted) cancelled = true
is_allowed_transition (some admitted) timed_out = true
is_allowed_transition (some running_heartbeat) awaiting_approval = true
is_allowed_transition (some running_heartbeat) executing = true
is_allowed_transition (some running_heartbeat) blocked = true
is_allowed_transition (some running_heartbeat) cancelled = true
is_allowed_transition (some running_heartbeat) failed = true
is_allowed_transition (some running_heartbeat) timed_out = true
is_allowed_transition (some awaiting_approval) running_heartbeat = true
is_allowed_transition (some awaiting_approval) blocked = true
is_allowed_transition (some awaiting_approval) cancelled = true
is_allowed_transition (some awaiting_approval) timed_out = true
is_allowed_transition (some executing) observing = true
is_allowed_transition (some executing) failed = true
is_allowed_transition (some executing) blocked = true
is_allowed_transition (some executing) timed_out = true
is_allowed_transition (some observing) verifying = true
is_allowed_transition (some observing) failed = true
is_allowed_transition (some observing) blocked = true
is_allowed_transition (some observing) timed_out = true
is_allowed_transition (some verifying) persisting = true
is_allowed_transition (some verifying) failed = true
is_allowed_transition (some verifying) blocked = true
is_allowed_transition (some verifying) timed_out = true
is_allowed_transition (some persisting) completed = true
is_allowed_transition (some persisting) failed = true
is_allowed_transition (some persisting) rolled_back = true
is_allowed_transition (some persisting) timed_out = true
is_allowed_transition (some current) next = current == next

unfoldable pub get_run_status : String → StoreAction (Option RunStatus)
get_run_status run_id = gets (λ s. lookup run_id s.run_states)

unfoldable pub set_run_status : String → RunStatus → StoreAction (Unit {0})
set_run_status run_id status =
    modify (λ s. record s { run_states = insert run_id status s.run_states })

unfoldable pub transition_run_status : String → RunStatus → StoreAction (Unit {0})
unfolding get_run_status set_run_status
transition_run_status run_id to = do
  from ← get_run_status run_id
  if is_allowed_transition from to
      then set_run_status run_id to
      else raise (invalid_transition from to)

-- `i64::MAX`
abbrev pub i64_max : ℕ
i64_max = 2 ^ 63 - 1

-- `rusqlite` binds a `u64` as an `i64`, and refuses one that is above `i64::MAX` before it runs the
-- statement. The other limits are `u32`. `ON CONFLICT(run_id) DO NOTHING`
unfoldable pub initialize_run_budget : String → Budget → StoreAction (Unit {0})
initialize_run_budget run_id budget s =
    if ltb i64_max budget.timeout_ms
    then (err sqlite_conversion, s)
    else elim (insert_new run_id
        (record {
          max_steps = budget.max_steps;
          max_heartbeats = budget.max_heartbeats;
          max_tool_calls = budget.max_tool_calls;
          timeout_ms = budget.timeout_ms;
          steps = 0;
          heartbeats = 0;
          tool_calls = 0;
        })
        s.run_usage) [ none ↦ (ok tt, s) | some usage ↦ (ok tt, record s { run_usage = usage }) ]

-- the columns that `increment_counter` is called with
pub data Counter : Type 0 where
  steps heartbeats tool_calls : Counter

abbrev pub counter_name : Counter → String
counter_name steps = "steps"
counter_name heartbeats = "heartbeats"
counter_name tool_calls = "tool_calls"

-- `SELECT {field}, {max_field}`
abbrev pub current : Counter → Usage → ℕ
current steps u = u.steps
current heartbeats u = u.heartbeats
current tool_calls u = u.tool_calls

abbrev pub limit : Counter → Usage → ℕ
limit steps u = u.max_steps
limit heartbeats u = u.max_heartbeats
limit tool_calls u = u.max_tool_calls

-- `SET {field} = {field} + 1`
abbrev pub increment : Counter → Usage → Usage
increment steps u = record u { steps = u.steps + 1 }
increment heartbeats u = record u { heartbeats = u.heartbeats + 1 }
increment tool_calls u = record u { tool_calls = u.tool_calls + 1 }

unfoldable pub increment_counter : Counter → String → StoreAction (Unit {0})
increment_counter c run_id = do
  row ← gets (λ s. lookup run_id s.run_usage)
  usage ← or_raise row sqlite_no_rows
  raise_if (leb (limit c usage) (current c usage))
      (budget_exceeded run_id (counter_name c) (current c usage) (limit c usage))
  modify (λ s. record s { run_usage = update run_id (increment c) s.run_usage })

unfoldable pub record_step : String → StoreAction (Unit {0})
unfolding increment_counter
record_step = increment_counter steps

unfoldable pub record_heartbeat : String → StoreAction (Unit {0})
unfolding increment_counter
record_heartbeat = increment_counter heartbeats

unfoldable pub record_tool_call : String → StoreAction (Unit {0})
unfolding increment_counter
record_tool_call = increment_counter tool_calls
