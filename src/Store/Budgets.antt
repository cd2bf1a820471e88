-- ===== src/Store/Budgets.antt =====
-- Run budgets: `increment_counter` and `initialize_run_budget`.
use essence_agent.Base.{
  ℕ, ◌+◌, ◌-◌, ◌≤◌, ◌<◌, ◌⊎◌, ap, ltb, min, String, ◌≡◌, refl, ◌∙◌, inl, inr, true, false, none,
  some, List, [], ◌∷◌, arith, ◌==◌, ◌&&◌, string_eq, if◌then◌else◌, Bool-cases,
}
use essence_agent.Base.Table.{lookup, lookup-append}
use essence_agent.Base.Outcome.Pure.{Result, ok, err}
use essence_agent.Contracts.{Budget}
use essence_agent.Store.{
  Store, StoreError, Usage, Counter, current, limit, increment_counter, initialize_run_budget,
  i64_max, sqlite_conversion,
}
use essence_agent.Store.Counters.{
  count_if, is_ok, row_after, step_row, step_granted, within, exact_step, limit-increment,
  current-increment, Counter-eq,
}

-- A list of calls, of any counters of any runs; a refused call is followed by the next.
unfoldable pub use_budget : List (Counter × String) → Store → Store
use_budget [] s = s
use_budget ((c, run_id) ∷ calls) s = use_budget calls (increment_counter c run_id s).1

-- How many of the calls are for this counter of this run.
unfoldable pub asked : Counter → String → List (Counter × String) → ℕ
asked c run_id [] = 0
asked c run_id ((d, other) ∷ calls) = count_if (d == c && other == run_id) + asked c run_id calls

-- How many of those return `Ok`.
unfoldable pub granted : Counter → String → List (Counter × String) → Store → ℕ
granted c run_id [] s = 0
granted c run_id ((d, other) ∷ calls) s =
    count_if (d == c && other == run_id && is_ok (increment_counter d other s).0)
    + granted c run_id calls (increment_counter d other s).1

-- The budget after some calls, from the row before them.
record Spent (c : Counter) (u u' : Usage) (calls_asked calls_granted : ℕ) : Type 0 where
  exact : calls_granted ≡ min calls_asked (limit c u - current c u)
  used : current c u' ≡ current c u + calls_granted
  same_limit : limit c u' ≡ limit c u

spent :
    (c : Counter) (run_id : String) (calls : List (Counter × String)) (s : Store) (u : Usage)
    → lookup run_id s.run_usage ≡ some u
    → current c u ≤ limit c u
    → (u' : Usage) × (lookup run_id (use_budget calls s).run_usage ≡ some u')
      × Spent c u u' (asked c run_id calls) (granted c run_id calls s)
unfolding use_budget asked granted
spent c run_id [] s u h b =
    (u, h, record { exact = omega arith; used = omega arith; same_limit = refl })
spent c run_id ((d, other) ∷ calls) s u h b =
    let own = other == run_id in
    let next = row_after d own u in
    let (u', found, later) =
      spent c run_id calls (increment_counter d other s).1 next (step_row d run_id other s u h)
        (within c d own u b) in
    (
      u',
      found,
      record {
        exact = rw (step_granted c d run_id other s u h) (exact_step c d own u _ _ b later.exact);
        used =
            rw (step_granted c d run_id other s u h)
              (omega (arith, later.used, current-increment c d own u));
        same_limit = later.same_limit ∙ limit-increment c d own u;
      },
    )

-- Start from a row of the run whose counter is within its limit, and make any calls of
-- `record_step`, `record_heartbeat` and `record_tool_call`, for any runs. Of the calls for one
-- counter of the run exactly as many return `Ok` as the limit has left, or all of them if they
-- are fewer; the row stays, its counter grows by just that number, and its limit is the same.
pub budget_exact :
    (c : Counter) (run_id : String) (calls : List (Counter × String)) (s : Store) (u : Usage)
    → lookup run_id s.run_usage ≡ some u
    → current c u ≤ limit c u
    → (granted c run_id calls s ≡ min (asked c run_id calls) (limit c u - current c u))
      × ((u' : Usage) × (lookup run_id (use_budget calls s).run_usage ≡ some u')
          × (current c u' ≡ current c u + granted c run_id calls s)
          × (limit c u' ≡ limit c u))
budget_exact c run_id calls s u h b =
    let (u', found, after) = spent c run_id calls s u h b in
    (after.exact, (u', found, after.used, after.same_limit))

-- What a budget allows of a counter.
abbrev pub allowance : Counter → Budget → ℕ
allowance Counter.steps b = b.max_steps
allowance Counter.heartbeats b = b.max_heartbeats
allowance Counter.tool_calls b = b.max_tool_calls

abbrev pub fresh_usage : Budget → Usage
fresh_usage b = record {
  max_steps = b.max_steps;
  max_heartbeats = b.max_heartbeats;
  max_tool_calls = b.max_tool_calls;
  timeout_ms = b.timeout_ms;
  steps = 0;
  heartbeats = 0;
  tool_calls = 0;
}

-- What a call returns for a run that has its row.
abbrev again_result : Budget → Result StoreError (Unit {0})
again_result b = if ltb i64_max b.timeout_ms then err sqlite_conversion else ok tt

initialized :
    (run_id : String) (b : Budget) (s : Store)
    → lookup run_id s.run_usage ≡ none
    → ltb i64_max b.timeout_ms ≡ false
    → ((initialize_run_budget run_id b s).0 ≡ ok tt)
      × (lookup run_id (initialize_run_budget run_id b s).1.run_usage ≡ some (fresh_usage b))
unfolding initialize_run_budget
initialized run_id b s h fits =
    rw fits (ground (arith, lookup-append run_id run_id (fresh_usage b) s.run_usage))

initialize_again :
    (run_id : String) (b : Budget) (s : Store) {u : Usage}
    → lookup run_id s.run_usage ≡ some u
    → initialize_run_budget run_id b s ≡ (again_result b, s)
unfolding initialize_run_budget
initialize_again run_id b s h = elim (Bool-cases (ltb i64_max b.timeout_ms)) [
  | inl large ↦ rw large refl
  | inr fits ↦ rw fits (ground arith)
]

refused_budget :
    (run_id : String) (b : Budget) (s : Store)
    → ltb i64_max b.timeout_ms ≡ true
    → initialize_run_budget run_id b s ≡ (err sqlite_conversion, s)
unfolding initialize_run_budget
refused_budget run_id b s large = rw large refl

fresh_room :
    (c : Counter) (b : Budget) → limit c (fresh_usage b) - current c (fresh_usage b) ≡ allowance c b
fresh_room Counter.steps b = ground arith
fresh_room _ b = ground arith

fresh_within : (c : Counter) (b : Budget) → current c (fresh_usage b) ≤ limit c (fresh_usage b)
fresh_within Counter.steps b = ground arith
fresh_within _ b = ground arith

-- A run without a row is given its budget where the timeout is at most `i64::MAX`; otherwise the call
-- fails with the conversion error and leaves the store. Once it is given, of any calls for one of
-- its counters, among any calls for other counters and runs, exactly as many return `Ok` as the
-- budget allows, or all of them if they are fewer. A second `initialize_run_budget` for the run,
-- with any budget, changes nothing, and fails just where its timeout is above `i64::MAX`.
pub fresh_budget_exact :
    (c : Counter) (run_id : String) (b again : Budget) (calls : List (Counter × String)) (s : Store)
    → lookup run_id s.run_usage ≡ none
    → ((i64_max < b.timeout_ms) × (initialize_run_budget run_id b s ≡ (err sqlite_conversion, s)))
      ⊎ ((b.timeout_ms ≤ i64_max)
          × ((initialize_run_budget run_id b s).0 ≡ ok tt)
          × (granted c run_id calls (initialize_run_budget run_id b s).1
              ≡ min (asked c run_id calls) (allowance c b))
          × (((again.timeout_ms ≤ i64_max)
                × (initialize_run_budget run_id again (initialize_run_budget run_id b s).1
                    ≡ (ok tt, (initialize_run_budget run_id b s).1)))
              ⊎ ((i64_max < again.timeout_ms)
                  × (initialize_run_budget run_id again (initialize_run_budget run_id b s).1
                      ≡ (err sqlite_conversion, (initialize_run_budget run_id b s).1)))))
fresh_budget_exact c run_id b again calls s h = elim (Bool-cases (ltb i64_max b.timeout_ms)) [
  | inl large ↦ inl (ground (arith, large), refused_budget run_id b s large)
  | inr fits ↦
      let (given, row) = initialized run_id b s h fits in
      let same = initialize_again run_id again (initialize_run_budget run_id b s).1 row in
      inr (
        ground (arith, fits),
        given,
        rw (← fresh_room c b)
            (budget_exact c run_id calls (initialize_run_budget run_id b s).1 (fresh_usage b) row
              (fresh_within c b)).0,
        elim (Bool-cases (ltb i64_max again.timeout_ms)) [
          | inl large ↦ inr (
            ground (arith, large),
            same ∙ ap (λ x. (x, (initialize_run_budget run_id b s).1)) (rw large refl),
          )
          | inr small ↦ inl (
            ground (arith, small),
            same ∙ ap (λ x. (x, (initialize_run_budget run_id b s).1)) (rw small refl),
          )
        ],
      )
]
