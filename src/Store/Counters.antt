-- ===== src/Store/Counters.antt =====
-- One call of `increment_counter`, seen from a run that has a budget.
use essence_agent.Base.{
  ℕ, ◌+◌, ◌-◌, ◌≤◌, min, String, ◌≡◌, refl, sym, ◌∙◌, subst, inl, inr, Bool, true, false, some,
  arith, Eq, ◌==◌, ==_iff, ◌&&◌, leb, string_eq, if◌then◌else◌, Bool-cases, Option-cases,
}
use essence_agent.Base.Table.{lookup, lookup-update}
use essence_agent.Base.Outcome.Pure.{Result, ok, err}
use essence_agent.Store.{
  Store, StoreError, Usage, Counter, current, limit, increment, increment_counter,
}

unfoldable pub Counter-discrete : Discrete Counter
Counter-discrete = hlevel

instance unfoldable pub Counter-eq : Eq Counter
Counter-eq = record { dec = Counter-discrete }

abbrev pub is_ok : Result StoreError (Unit {0}) → Bool
is_ok (ok _) = true
is_ok (err _) = false

-- One call, seen from any run that has a budget: the call counts for its own run, if that is
-- below its limit, and is refused otherwise.
pub increment_counter_self :
    (c : Counter) (run_id : String) (s : Store) (u : Usage)
    → lookup run_id s.run_usage ≡ some u
    → (is_ok (increment_counter c run_id s).0
        ≡ (if leb (limit c u) (current c u) then false else true))
      × (lookup run_id (increment_counter c run_id s).1.run_usage
          ≡ some (if leb (limit c u) (current c u) then u else increment c u))
unfolding increment_counter
increment_counter_self c run_id s u h =
    rw (h) (ground (arith, lookup-update run_id run_id (increment c) s.run_usage))

pub increment_counter_other :
    (c : Counter) (run_id other : String) (s : Store)
    → (other == run_id) ≡ false
    → lookup run_id (increment_counter c other s).1.run_usage ≡ lookup run_id s.run_usage
unfolding increment_counter
increment_counter_other c run_id other s h = elim (Option-cases (lookup other s.run_usage)) [
  | inl missing ↦ rw missing refl
  | inr (u, found) ↦ rw found (ground (arith, lookup-update other run_id (increment c) s.run_usage))
]

abbrev pub count_if : Bool → ℕ
count_if true = 1
count_if false = 0

abbrev pub below : Counter → Usage → Bool
below c u = if leb (limit c u) (current c u) then false else true

-- the row of a run after a call that may be its own
abbrev pub row_after : Counter → Bool → Usage → Usage
row_after d own u = if own then (if leb (limit d u) (current d u) then u else increment d u) else u

pub step_row :
    (d : Counter) (run_id other : String) (s : Store) (u : Usage)
    → lookup run_id s.run_usage ≡ some u
    → lookup run_id (increment_counter d other s).1.run_usage
      ≡ some (row_after d (other == run_id) u)
step_row d run_id other s u h = elim (Bool-cases (other == run_id)) [
  | inl own ↦ rw own (
      subst (λ id. lookup id (increment_counter d other s).1.run_usage ≡ some (row_after d true u))
        ((==_iff other run_id).0 own)
        (increment_counter_self d other s u
          (subst (λ id. lookup id s.run_usage ≡ some u) (sym ((==_iff other run_id).0 own)) h)).1)
  | inr foreign ↦ rw foreign (increment_counter_other d run_id other s foreign ∙ h)
]

pub limit-increment :
    (c d : Counter) (own : Bool) (u : Usage) → limit c (row_after d own u) ≡ limit c u
limit-increment Counter.steps d own u = ground arith
limit-increment _ d own u = ground arith

pub current-increment :
    (c d : Counter) (own : Bool) (u : Usage)
    → current c (row_after d own u) ≡ current c u + count_if (d == c && own && below d u)
current-increment Counter.steps d own u = ground arith
current-increment _ d own u = ground arith

pub step_granted :
    (c d : Counter) (run_id other : String) (s : Store) (u : Usage)
    → lookup run_id s.run_usage ≡ some u
    → count_if (d == c && other == run_id && is_ok (increment_counter d other s).0)
      ≡ count_if (d == c && other == run_id && below d u)
step_granted c d run_id other s u h = elim (Bool-cases (other == run_id)) [
  | inl own ↦ rw own (
      rw
        (increment_counter_self d other s u
          (subst (λ id. lookup id s.run_usage ≡ some u) (sym ((==_iff other run_id).0 own)) h)).0
        refl)
  | inr foreign ↦ rw foreign (ground arith)
]

pub within :
    (c d : Counter) (own : Bool) (u : Usage)
    → current c u ≤ limit c u
    → current c (row_after d own u) ≤ limit c (row_after d own u)
within Counter.steps d own u b = ground arith
within _ d own u b = ground arith

pub exact_step :
    (c d : Counter) (own : Bool) (u : Usage) (n g : ℕ)
    → current c u ≤ limit c u
    → g ≡ min n (limit c (row_after d own u) - current c (row_after d own u))
    → count_if (d == c && own && below d u) + g
      ≡ min (count_if (d == c && own) + n) (limit c u - current c u)
exact_step Counter.steps d own u n g b h = ground arith
exact_step _ d own u n g b h = ground arith
