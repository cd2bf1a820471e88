-- ===== src/Core/Proposed.antt =====
-- What `propose_delta` has done where it returns a decision.
use essence_agent.Base.{
  ℕ, String, ◌≡◌, ◌⊎◌, inl, inr, refl, sym, subst, ap, ◌∙◌, false, Option, none, some, [], ◌∷◌,
  arith, ◌!=◌, ==-refl, string_eq,
}
use essence_agent.Base.Table.{lookup, lookup-append, lookup-insert}
use essence_agent.Base.Text.{concat}
use essence_agent.Base.Outcome.Pure.{ok, Result-cases}
use essence_agent.Contracts.{
  RunContract, RunStatus, CapabilityContract, WorldDelta, PolicyDecision, Decision, PolicyConfig,
}
use essence_agent.Platform.{Platform}
use essence_agent.Store.{
  record_step, increment_counter, StoreAction, transition_run_status, record_policy_decision,
}
use essence_agent.Core.Policy.{evaluate}
use essence_agent.Core.Kernel.{
  Kernel, stored, add_timeout, enforce_run_timeout, record_decision_status, decision_for,
  propose_delta,
}
use essence_agent.Core.Authority.{timely, unequal_false}

-- A call of the store leaves the rest of the kernel as it is.
aside :
    {A : Type 0} (m : StoreAction A) (k : Kernel)
    → (stored m k).1 ≡ record k { store = (stored m k).1.store }
aside m k = elim (Result-cases (m k.store).0) [ inl (a, e) ↦ rw e refl | inr (a, e) ↦ rw e refl ]

-- What a decision does to the status of the run.
abbrev pub Follows : Decision → Option RunStatus → Option RunStatus → Type 0
Follows decision before after =
    ((decision ≡ Decision.allow) × (after ≡ before))
    ⊎ (((decision ≡ Decision.deny) × (after ≡ some RunStatus.blocked))
        ⊎ ((decision ≡ Decision.require_approval) × (after ≡ some RunStatus.awaiting_approval)))

abbrev pub status_of : String → Kernel → Option RunStatus
status_of run_id k = lookup run_id k.store.run_states

moved :
    (run_id : String) (to : RunStatus) (k : Kernel)
    → (stored (transition_run_status run_id to) k).0 ≡ ok tt
    → lookup run_id (stored (transition_run_status run_id to) k).1.store.run_states ≡ some to
unfolding transition_run_status
moved run_id to k h =
    ground (arith, lookup-insert run_id run_id to k.store.run_states, ==-refl run_id)

follows :
    (run_id : String) (decision : Decision) (k : Kernel)
    → (record_decision_status run_id decision k).0 ≡ ok tt
    → Follows decision
        (status_of run_id k)
        (status_of run_id (record_decision_status run_id decision k).1)
unfolding record_decision_status
follows run_id Decision.allow k h = inl (refl, refl)
follows run_id Decision.deny k h = inr (inl (refl, moved run_id RunStatus.blocked k h))
follows run_id Decision.require_approval k h =
    inr (inr (refl, moved run_id RunStatus.awaiting_approval k h))

kept :
    (policy : PolicyDecision) (k after : Kernel)
    → stored (record_policy_decision policy) k ≡ (ok tt, after)
    → (lookup policy.decision_id k.store.policy_decisions ≡ none)
      × (lookup policy.decision_id after.store.policy_decisions ≡ some policy)
      × (after.store.run_states ≡ k.store.run_states)
unfolding record_policy_decision
kept policy k after h = ground (
  arith,
  lookup-append policy.decision_id policy.decision_id policy k.store.policy_decisions,
  ==-refl policy.decision_id,
)

step_keeps :
    (run_id : String) (k : Kernel)
    → (stored (record_step run_id) k).1.store.run_states ≡ k.store.run_states
unfolding record_step increment_counter
step_keeps run_id k = ground arith

step_keeps_decisions :
    (run_id : String) (k : Kernel)
    → (stored (record_step run_id) k).1.store.policy_decisions ≡ k.store.policy_decisions
unfolding record_step increment_counter
step_keeps_decisions run_id k = ground arith

status_keeps_decisions :
    (run_id : String) (decision : Decision) (k : Kernel)
    → (record_decision_status run_id decision k).1.store.policy_decisions ≡ k.store.policy_decisions
unfolding record_decision_status transition_run_status
status_keeps_decisions run_id Decision.allow k = refl
status_keeps_decisions run_id _ k = ground arith

-- The decision has a name of its own, names the run, the delta, the actor and the capability that it
-- is about, and says what the policy engine says of them.
pub record IsVerdict (config : PolicyConfig) (actor_id uuid : String) (run : RunContract)
    (delta : WorldDelta) (capability : CapabilityContract) (policy : PolicyDecision) : Type 0 where
  pub decision_id : policy.decision_id ≡ concat ("pd_" ∷ uuid ∷ [])
  pub run_id : policy.run_id ≡ run.run_id
  pub delta_id : policy.delta_id ≡ delta.delta_id
  pub actor : policy.actor_id ≡ actor_id
  pub capability_id : policy.capability_id ≡ capability.capability_id
  pub decision : policy.decision ≡ (evaluate config run capability delta).decision
  pub risk_level : policy.risk_level ≡ (evaluate config run capability delta).risk_level
  pub reasons : policy.reasons ≡ (evaluate config run capability delta).reasons
  pub required_approval :
      policy.required_approval ≡ (evaluate config run capability delta).required_approval

module _ (p : Platform) (uuid : String) (now_timeout now_expiry : ℕ) (run_id : String)
    (delta : WorldDelta) (k : Kernel) (policy : PolicyDecision) where
  abbrev after : Kernel
  after = (propose_delta p uuid now_timeout now_expiry run_id delta k).1

  abbrev stepped : RunContract → Kernel
  stepped run = (stored (record_step run_id) (enforce_run_timeout p now_timeout run k).1).1

  raw_run :
      (propose_delta p uuid now_timeout now_expiry run_id delta k).0 ≡ ok policy
      → (run : RunContract) × (lookup run_id k.runs ≡ some run)
        × ((enforce_run_timeout p now_timeout run k).0 ≡ ok tt)
        × ((delta.run_id != run.run_id) ≡ false)
        × ((stored (record_step run_id) (enforce_run_timeout p now_timeout run k).1).0 ≡ ok tt)
  unfolding propose_delta
  raw_run h = ground arith

  abbrev made : RunContract → CapabilityContract → ℕ → PolicyDecision
  made run capability expires_at =
      decision_for (stepped run).actor_id uuid run delta capability
        (evaluate (stepped run).policy_config run capability delta) expires_at

  says :
      (run : RunContract) (capability : CapabilityContract) (expires_at : ℕ)
      → (stepped run).policy_config ≡ k.policy_config
      → (stepped run).actor_id ≡ k.actor_id
      → IsVerdict k.policy_config k.actor_id uuid run delta capability
          (made run capability expires_at)
  says run capability expires_at same_config same_actor =
      let same = ap (λ config. evaluate config run capability delta) same_config in
      record {
        decision_id = refl;
        run_id = refl;
        delta_id = refl;
        actor = same_actor;
        capability_id = refl;
        decision = ap (λ e. e.decision) same;
        risk_level = ap (λ e. e.risk_level) same;
        reasons = ap (λ e. e.reasons) same;
        required_approval = ap (λ e. e.required_approval) same;
      }

  raw_made :
      (run : RunContract)
      → (lookup run_id k.runs ≡ some run)
      → ((enforce_run_timeout p now_timeout run k).0 ≡ ok tt)
      → ((stored (record_step run_id) (enforce_run_timeout p now_timeout run k).1).0 ≡ ok tt)
      → (propose_delta p uuid now_timeout now_expiry run_id delta k).0 ≡ ok policy
      → (capability : CapabilityContract) × (expires_at : ℕ) × (lookup delta.capability_id
            (stepped run).registry
          ≡ some capability)
        × (add_timeout p now_expiry capability.timeout_ms ≡ some expires_at)
        × (policy ≡ made run capability expires_at)
        × ((record_decision_status run_id (made run capability expires_at).decision (stepped run)).0
            ≡ ok tt)
        × (stored
              (record_policy_decision policy)
              (record_decision_status run_id
                (made run capability expires_at).decision
                (stepped run)).1
            ≡ (ok tt, after))
  unfolding propose_delta
  raw_made run r t c h = ground arith

  -- A decision is proposed only for a delta of a run that the kernel has and of a capability that is
  -- registered. Decision, risk, reasons and required approval are what the policy engine says of run,
  -- delta and capability, which the decision names, with the kernel as the actor; it expires with the
  -- capability's timeout. The store had no decision of its name before, and has it after. The run is
  -- blocked by a denial, waits where an approval is required, and keeps its status otherwise.
  pub proposed_lem :
      (propose_delta p uuid now_timeout now_expiry run_id delta k).0 ≡ ok policy
      → (run : RunContract) × (capability : CapabilityContract) × (expires_at : ℕ) × (lookup run_id
            k.runs
          ≡ some run)
        × (delta.run_id ≡ run.run_id)
        × (lookup delta.capability_id k.registry ≡ some capability)
        × (add_timeout p now_expiry capability.timeout_ms ≡ some expires_at)
        × (policy.expires_at ≡ expires_at)
        × IsVerdict k.policy_config k.actor_id uuid run delta capability policy
        × (lookup policy.decision_id k.store.policy_decisions ≡ none)
        × (lookup policy.decision_id after.store.policy_decisions ≡ some policy)
        × Follows policy.decision (status_of run_id k) (status_of run_id after)
  proposed_lem h =
      let (run, r, t, same, c) = raw_run h in
      let (capability, expires_at, q, e, is_made, moved_on, saved) = raw_made run r t c h in
      let timed = (enforce_run_timeout p now_timeout run k).1 in
      let start = timely p now_timeout run k t in
      let rest = aside (record_step run_id) timed in
      let (fresh, recorded, states) = kept policy _ after saved in
      let same_registry = ap (λ x. x.registry) rest ∙ ap (λ x. x.registry) start in
      let same_actor = ap (λ x. x.actor_id) rest ∙ ap (λ x. x.actor_id) start in
      let same_config = ap (λ x. x.policy_config) rest ∙ ap (λ x. x.policy_config) start in
      let old = ap (lookup run_id) (step_keeps run_id timed) ∙ ap (status_of run_id) start in
      let new = ap (lookup run_id) (sym states) in
      let verdict = made run capability expires_at in
      (
        run,
        capability,
        expires_at,
        r,
        unequal_false delta.run_id run.run_id same,
        ap (lookup delta.capability_id) (sym same_registry) ∙ q,
        e,
        ap (λ x. x.expires_at) is_made,
        subst (λ x. IsVerdict k.policy_config k.actor_id uuid run delta capability x) (sym is_made)
            (says run capability expires_at same_config same_actor),
        ap (lookup policy.decision_id) (
              sym (
                status_keeps_decisions run_id verdict.decision (stepped run)
                ∙ step_keeps_decisions run_id timed
                ∙ ap (λ x. x.store.policy_decisions) start))
            ∙ fresh,
        recorded,
        subst (λ d. Follows d (status_of run_id k) (status_of run_id after))
            (ap (λ x. x.decision) (sym is_made))
            (subst (λ o. Follows verdict.decision (status_of run_id k) o) new
              (subst
                (λ o. Follows verdict.decision o (
                  status_of run_id
                    (record_decision_status run_id verdict.decision (stepped run)).1))
                old (follows run_id verdict.decision (stepped run) moved_on))),
      )
