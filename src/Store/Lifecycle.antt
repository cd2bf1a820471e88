-- ===== src/Store/Lifecycle.antt =====
-- The state machine of a run: `is_allowed_transition` and `transition_run_status`.
use essence_agent.Base.{
  ℕ, ◌≤◌, String, ◌≡◌, ◌≢◌, refl, sym, ap, ◌∙◌, subst, ◌⊎◌, inl, inr, Bool, true, false, Option,
  none, some, List, [], ◌∷◌, arith, ◌==◌, ==_iff, string_eq, if◌then◌else◌, Bool-cases,
}
use mathlib.Core.List.{Sublist, Sublistᴰ}
use mathlib.Core.List.Sublistᴰ.{slnil, cons, cons-cons}
use essence_agent.Base.Table.{lookup, lookup-insert}
use essence_agent.Base.Outcome.Pure.{Result, ok, err}
use essence_agent.Contracts.{RunStatus, RunStatus-eq}
use essence_agent.Contracts.RunStatus.{
  created, admitted, running_heartbeat, awaiting_approval, executing, observing, verifying,
  persisting, completed, failed, timed_out, cancelled, blocked, rolled_back,
}
use essence_agent.Store.{
  Store, StoreError, invalid_transition, is_allowed_transition, transition_run_status,
}

-- The statuses that end a run.
abbrev pub is_terminal : RunStatus → Bool
is_terminal completed = true
is_terminal failed = true
is_terminal timed_out = true
is_terminal cancelled = true
is_terminal blocked = true
is_terminal rolled_back = true
is_terminal _ = false

-- How far a run has come; a run that waits for an approval is as far as one that runs.
abbrev pub phase : RunStatus → ℕ
phase created = 0
phase admitted = 1
phase running_heartbeat = 2
phase awaiting_approval = 2
phase executing = 3
phase observing = 4
phase verifying = 5
phase persisting = 6
phase _ = 7

-- A status that ends a run is left for no other status.
pub terminal_is_final :
    (from to : RunStatus)
    → is_terminal from ≡ true
    → is_allowed_transition (some from) to ≡ true
    → to ≡ from
unfolding is_allowed_transition
terminal_is_final from to h a = ground arith

-- No allowed transition takes a run back to an earlier phase.
pub phase-le :
    (from to : RunStatus) → is_allowed_transition (some from) to ≡ true → phase from ≤ phase to
unfolding is_allowed_transition
phase-le from to a = ground arith

-- A sequence of statuses, each allowed from the one before it, that ends at a given status.
data Walk : Option RunStatus → List RunStatus → RunStatus → Type 0 where
  done : {t : RunStatus} → Walk (some t) [] t
  step :
      {from : Option RunStatus} {s t : RunStatus} {later : List RunStatus}
      → is_allowed_transition from s ≡ true
      → Walk (some s) later t
      → Walk from (s ∷ later) t

-- A list of calls of `transition_run_status`, of any runs in any order; a refused call is
-- followed by the next.
unfoldable pub run_calls : List (String × RunStatus) → Store → Store
run_calls [] s = s
run_calls ((run_id, to) ∷ calls) s = run_calls calls (transition_run_status run_id to s).1

abbrev kept_status :
    Bool → RunStatus → Result StoreError (Unit {0}) → List RunStatus → List RunStatus
kept_status true to (ok _) later = to ∷ later
kept_status true to (err _) later = later
kept_status false to r later = later

-- The statuses that one run takes during the calls, first to last.
unfoldable pub accepted : String → List (String × RunStatus) → Store → List RunStatus
accepted run_id [] s = []
accepted run_id ((other, to) ∷ calls) s =
    kept_status (other == run_id) to (transition_run_status other to s).0
      (accepted run_id calls (transition_run_status other to s).1)

-- One call: it is accepted if the run's status allows it, and changes the status of no other run.
pub transition_cases :
    (run_id other : String) (to : RunStatus) (s : Store)
    → (((transition_run_status other to s).0 ≡ ok tt)
        × (is_allowed_transition (lookup other s.run_states) to ≡ true)
        × (lookup run_id (transition_run_status other to s).1.run_states
            ≡ (if other == run_id then some to else lookup run_id s.run_states)))
      ⊎ (((transition_run_status other to s).0
            ≡ err (invalid_transition (lookup other s.run_states) to))
          × (is_allowed_transition (lookup other s.run_states) to ≡ false)
          × ((transition_run_status other to s).1 ≡ s))
unfolding transition_run_status
transition_cases run_id other to s =
    elim (Bool-cases (is_allowed_transition (lookup other s.run_states) to)) [
      | inl yes_ ↦ inl (rw yes_ refl, yes_, rw yes_ (lookup-insert other run_id to s.run_states))
      | inr no_ ↦ inr (rw no_ refl, no_, rw no_ refl)
    ]

kept_status-err :
    (b : Bool) (to : RunStatus) (e : StoreError) (later : List RunStatus)
    → kept_status b to (err e) later ≡ later
kept_status-err true to e later = refl
kept_status-err false to e later = refl

terminal_kept :
    (run_id other : String) (t to : RunStatus) (s : Store)
    → is_terminal t ≡ true
    → lookup run_id s.run_states ≡ some t
    → lookup run_id (transition_run_status other to s).1.run_states ≡ some t
terminal_kept run_id other t to s e h = elim (transition_cases run_id other to s) [
  | inl (_, allowed, found) ↦ elim (Bool-cases (other == run_id)) [
    | inl same ↦
        let was =
          subst (λ id. lookup id s.run_states ≡ some t) (sym ((==_iff other run_id).0 same)) h in
        let stays =
          terminal_is_final t to e (subst (λ o. is_allowed_transition o to ≡ true) was allowed) in
        found ∙ rw same (ap some stays)
    | inr differs ↦ found ∙ rw differs h
  ]
  | inr (_, _, same_store) ↦ ap (λ st. lookup run_id st.run_states) same_store ∙ h
]

accepted-Walk :
    (run_id : String) (t : RunStatus) (calls : List (String × RunStatus)) (s : Store)
    → lookup run_id (run_calls calls s).run_states ≡ some t
    → Walk (lookup run_id s.run_states) (accepted run_id calls s) t
unfolding run_calls accepted
accepted-Walk run_id t [] s h = rw h done
accepted-Walk run_id t ((other, to) ∷ calls) s h =
    let later = accepted-Walk run_id t calls (transition_run_status other to s).1 h in
    let rest = accepted run_id calls (transition_run_status other to s).1 in
    elim (transition_cases run_id other to s) [
      | inl (taken, allowed, found) ↦ elim (Bool-cases (other == run_id)) [
        | inl same ↦
            rw (same, taken)
              (step
                (subst (λ id. is_allowed_transition (lookup id s.run_states) to ≡ true)
                  ((==_iff other run_id).0 same) allowed)
                (subst (λ o. Walk o rest t) (found ∙ rw same refl) later))
        | inr differs ↦ rw differs (subst (λ o. Walk o rest t) (found ∙ rw differs refl) later)
      ]
      | inr (refused, _, same_store) ↦ rw refused (
          rw (kept_status-err (other == run_id) to _ rest)
            (subst (λ o. Walk o rest t) (ap (λ st. lookup run_id st.run_states) same_store) later))
    ]

-- The statuses that a run still has to take before it is completed.
abbrev remaining : Option RunStatus → List RunStatus
remaining (some executing) = observing ∷ verifying ∷ persisting ∷ completed ∷ []
remaining (some observing) = verifying ∷ persisting ∷ completed ∷ []
remaining (some verifying) = persisting ∷ completed ∷ []
remaining (some persisting) = completed ∷ []
remaining (some completed) = []
remaining _ = executing ∷ observing ∷ verifying ∷ persisting ∷ completed ∷ []

remaining_step :
    (from : Option RunStatus) (to : RunStatus)
    → is_allowed_transition from to ≡ true
    → (remaining from ≡ remaining (some to))
      ⊎ (remaining from ≡ to ∷ remaining (some to))
      ⊎ ((is_terminal to ≡ true) × (to ≢ completed))
unfolding is_allowed_transition
remaining_step from to a = ground arith

-- A walk from a status that ends a run stays there.
Walk-terminal :
    {from : Option RunStatus} {later : List RunStatus} {t : RunStatus}
    → Walk from later t
    → (s : RunStatus) → is_terminal s ≡ true
    → from ≡ some s
    → t ≡ s
Walk-terminal done s e h = ground arith
Walk-terminal (step {s = u} a w) s e h =
    let stays = terminal_is_final s u e (subst (λ o. is_allowed_transition o u ≡ true) h a) in
    Walk-terminal w s e (ap some stays)

Walk-Sublist :
    {from : Option RunStatus} {later : List RunStatus} {t : RunStatus}
    → Walk from later t
    → t ≡ completed
    → Sublistᴰ (remaining from) later
Walk-Sublist (done {t = t}) h = subst (λ u. Sublistᴰ (remaining (some u)) []) (sym h) slnil
Walk-Sublist (step {from = from} {s = s} {later = rest} a w) h = elim (remaining_step from s a) [
  | inl same ↦ subst (λ r. Sublistᴰ r (s ∷ rest)) (sym same) (cons {a = s} (Walk-Sublist w h))
  | inr (inl first) ↦
      subst (λ r. Sublistᴰ r (s ∷ rest)) (sym first) (cons-cons refl (Walk-Sublist w h))
  | inr (inr (ended, other)) ↦ absurd (other (sym (Walk-terminal w s ended refl) ∙ h))
]

-- Start from a store that does not know the run, and make any calls of `transition_run_status`,
-- for any runs. If the run is then completed, then among the statuses that it took are executing,
-- observing, verifying, persisting and completed, in this order.
pub completed_in_order :
    (run_id : String) (calls : List (String × RunStatus)) (s : Store)
    → lookup run_id s.run_states ≡ none
    → lookup run_id (run_calls calls s).run_states ≡ some completed
    → Sublist
        (executing ∷ observing ∷ verifying ∷ persisting ∷ completed ∷ [])
        (accepted run_id calls s)
completed_in_order run_id calls s fresh h =
    ∣ Walk-Sublist
      (subst (λ o. Walk o (accepted run_id calls s) completed) fresh
        (accepted-Walk run_id completed calls s h))
      refl ∣₁

-- A run that has ended keeps its status, whatever calls of `transition_run_status` follow, for
-- this run or others.
pub ended_run_stays :
    (run_id : String) (t : RunStatus) (calls : List (String × RunStatus)) (s : Store)
    → is_terminal t ≡ true
    → lookup run_id s.run_states ≡ some t
    → lookup run_id (run_calls calls s).run_states ≡ some t
unfolding run_calls
ended_run_stays run_id t [] s e h = h
ended_run_stays run_id t ((other, to) ∷ calls) s e h =
    ended_run_stays run_id t calls (transition_run_status other to s).1 e
      (terminal_kept run_id other t to s e h)
