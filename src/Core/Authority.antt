-- ===== src/Core/Authority.antt =====
-- What a ticket rests on: the decision, the grant and the manifest behind `issue_ticket`.
use essence_agent.Base.{
  ℕ, ◌≤◌, String, ◌≡◌, ◌⊎◌, inl, inr, refl, sym, subst, ap, ◌∙◌, Eq, false, Option, none, some,
  arith, ◌!=◌, ==_iff, string_eq, ◌||◌,
}
use essence_agent.Base.Table.{lookup}
use essence_agent.Base.Outcome.Pure.{ok}
use essence_agent.Contracts.{
  RunContract, CapabilityContract, ExecutorManifest, PolicyDecision, PolicyDecision-eq, Decision,
  ApprovalGrant, ApprovalGrant-eq, ExecutionTicket,
}
use essence_agent.Platform.{Platform}
use essence_agent.Store.{policy_decision, approval_grant, record_ticket, get_run_status}
use essence_agent.Core.Manifests.{validate_executor_manifest, executor_signature_ref}
use essence_agent.Core.Kernel.{
  Kernel, stored, enforce_run_timeout, validate_recorded_policy_decision, validate_approval_grant,
  authorize, ticket_for, issue_ticket_after_policy,
}

pub timely :
    (p : Platform) (now : ℕ) (run : RunContract) (k : Kernel)
    → (enforce_run_timeout p now run k).0 ≡ ok tt
    → (enforce_run_timeout p now run k).1 ≡ k
unfolding enforce_run_timeout get_run_status
timely p now run k h = ground arith

pub unequal_false : {A : Type 0} ⦃e : Eq A⦄ (x y : A) → (x != y) ≡ false → x ≡ y
unequal_false x y h = (==_iff x y).0 (ground (arith, h))

raw_recorded :
    (policy : PolicyDecision) (k : Kernel)
    → (validate_recorded_policy_decision policy k).0 ≡ ok tt
    → (found : PolicyDecision) × (lookup policy.decision_id k.store.policy_decisions ≡ some found)
      × ((found != policy) ≡ false)
unfolding validate_recorded_policy_decision policy_decision
raw_recorded policy k h = ground arith

recorded :
    (policy : PolicyDecision) (k : Kernel)
    → (validate_recorded_policy_decision policy k).0 ≡ ok tt
    → (lookup policy.decision_id k.store.policy_decisions ≡ some policy)
      × ((validate_recorded_policy_decision policy k).1 ≡ k)
unfolding validate_recorded_policy_decision policy_decision
recorded policy k h =
    let (found, q, same) = raw_recorded policy k h in
    (q ∙ ap some (unequal_false found policy same), ground arith)

-- The grant is the recorded one for the decision and the capability, and has not expired.
pub record Approves (now : ℕ) (policy : PolicyDecision) (capability : CapabilityContract)
    (k : Kernel) (grant : ApprovalGrant) : Type 0 where
  pub run_id : grant.run_id ≡ policy.run_id
  pub delta_id : grant.delta_id ≡ policy.delta_id
  pub policy_decision_ref : grant.policy_decision_ref ≡ policy.decision_id
  pub capability_id : grant.capability_id ≡ capability.capability_id
  pub unexpired : now ≤ grant.expires_at
  pub is_recorded : lookup grant.grant_id k.store.approval_grants ≡ some grant

raw_approved :
    (now : ℕ) (policy : PolicyDecision) (capability : CapabilityContract) (grant : ApprovalGrant)
    (k : Kernel)
    → (validate_approval_grant now policy capability grant k).0 ≡ ok tt
    → (found : ApprovalGrant) × (lookup grant.grant_id k.store.approval_grants ≡ some found)
      × ((found != grant) ≡ false)
      × ((grant.run_id != policy.run_id
            || grant.delta_id != policy.delta_id
            || grant.policy_decision_ref != policy.decision_id
            || grant.capability_id != capability.capability_id
            || grant.capability_id != policy.capability_id)
          ≡ false)
      × (now ≤ grant.expires_at)
unfolding validate_approval_grant approval_grant
raw_approved now policy capability grant k h = ground arith

approved :
    (now : ℕ) (policy : PolicyDecision) (capability : CapabilityContract) (grant : ApprovalGrant)
    (k : Kernel)
    → (validate_approval_grant now policy capability grant k).0 ≡ ok tt
    → Approves now policy capability k grant
      × ((validate_approval_grant now policy capability grant k).1 ≡ k)
unfolding validate_approval_grant approval_grant
approved now policy capability grant k h =
    let (found, q, same, tests, le) = raw_approved now policy capability grant k h in
    ground (
      arith,
      q,
      unequal_false found grant same,
      unequal_false grant.run_id policy.run_id,
      unequal_false grant.delta_id policy.delta_id,
      unequal_false grant.policy_decision_ref policy.decision_id,
      unequal_false grant.capability_id capability.capability_id,
    )

authorized :
    (now : ℕ) (decision : Decision) (policy : PolicyDecision) (capability : CapabilityContract)
    (grant : Option ApprovalGrant) (k : Kernel)
    → (authorize now decision policy capability grant k).0 ≡ ok tt
    → ((decision ≡ Decision.allow)
        ⊎ ((decision ≡ Decision.require_approval)
            × ((given : ApprovalGrant) × (grant ≡ some given)
                × Approves now policy capability k given)))
      × ((authorize now decision policy capability grant k).1 ≡ k)
unfolding authorize
authorized now Decision.allow policy capability grant k h = (inl refl, refl)
authorized now Decision.deny policy capability grant k h = ground arith
authorized now Decision.require_approval policy capability none k h = ground arith
authorized now Decision.require_approval policy capability (some grant) k h =
    let (approves, same) = approved now policy capability grant k h in
    (inr (refl, (grant, refl, approves)), same)

-- The ticket is that of the manifest which the kernel has for the capability, and the only change
-- of the kernel is that the store has the ticket.
pub record Issued (p : Platform) (uuid : String) (policy : PolicyDecision)
    (capability : CapabilityContract) (ticket : ExecutionTicket) (k after : Kernel) : Type 0 where
  pub same_capability : policy.capability_id ≡ capability.capability_id
  pub manifest : ExecutorManifest
  pub signature_ref : String
  pub installed : lookup capability.capability_id k.executors ≡ some manifest
  pub suits : validate_executor_manifest p capability manifest ≡ ok tt
  pub signed : executor_signature_ref manifest ≡ ok signature_ref
  pub bound : ticket ≡ ticket_for p k.actor_id uuid policy capability manifest signature_ref
  pub saved : stored (record_ticket ticket) k ≡ (ok tt, after)

module _ (p : Platform) (uuid : String) (now_timeout now_grant : ℕ) (policy : PolicyDecision)
    (capability : CapabilityContract) (grant : Option ApprovalGrant) (k : Kernel)
    (ticket : ExecutionTicket) where
  abbrev after : Kernel
  after = (issue_ticket_after_policy p uuid now_timeout now_grant policy capability grant k).1

  abbrev timed : RunContract → Kernel
  timed run = (enforce_run_timeout p now_timeout run k).1

  abbrev checked : RunContract → Kernel
  checked run = (validate_recorded_policy_decision policy (timed run)).1

  abbrev agreed : RunContract → Kernel
  agreed run = (authorize now_grant policy.decision policy capability grant (checked run)).1

  -- The grant that is given approves the decision.
  abbrev pub GrantGiven : Kernel → Type 0
  GrantGiven x =
      (given : ApprovalGrant) × (grant ≡ some given) × Approves now_grant policy capability x given

  -- The decision allows the capability, or the grant that is given approves it.
  abbrev pub Allowed : Kernel → Type 0
  Allowed x =
      (policy.decision ≡ Decision.allow)
      ⊎ ((policy.decision ≡ Decision.require_approval) × GrantGiven x)

  raw_issued :
      (issue_ticket_after_policy p uuid now_timeout now_grant policy capability grant k).0
        ≡ ok ticket
      → (run : RunContract) × (lookup policy.run_id k.runs ≡ some run)
        × ((enforce_run_timeout p now_timeout run k).0 ≡ ok tt)
        × ((validate_recorded_policy_decision policy (timed run)).0 ≡ ok tt)
        × ((authorize now_grant policy.decision policy capability grant (checked run)).0 ≡ ok tt)
  unfolding issue_ticket_after_policy
  raw_issued h = ground arith

  raw_bound :
      (run : RunContract)
      → lookup policy.run_id k.runs ≡ some run
      → (enforce_run_timeout p now_timeout run k).0 ≡ ok tt
      → (validate_recorded_policy_decision policy (timed run)).0 ≡ ok tt
      → (authorize now_grant policy.decision policy capability grant (checked run)).0 ≡ ok tt
      → (issue_ticket_after_policy p uuid now_timeout now_grant policy capability grant k).0
        ≡ ok ticket
      → (manifest : ExecutorManifest) × (signature_ref : String) × ((policy.capability_id
            != capability.capability_id)
          ≡ false)
        × (lookup capability.capability_id (agreed run).executors ≡ some manifest)
        × (validate_executor_manifest p capability manifest ≡ ok tt)
        × (executor_signature_ref manifest ≡ ok signature_ref)
        × (ticket
            ≡ ticket_for p (agreed run).actor_id uuid policy capability manifest signature_ref)
        × (stored (record_ticket ticket) (agreed run) ≡ (ok tt, after))
  unfolding issue_ticket_after_policy
  raw_bound run r t v a h = ground arith

  unchanged :
      (run : RunContract)
      → (enforce_run_timeout p now_timeout run k).0 ≡ ok tt
      → (validate_recorded_policy_decision policy (timed run)).0 ≡ ok tt
      → (authorize now_grant policy.decision policy capability grant (checked run)).0 ≡ ok tt
      → (timed run ≡ k) × (checked run ≡ k) × (agreed run ≡ k)
  unchanged run t v a =
      let start = timely p now_timeout run k t in
      let middle = (recorded policy (timed run) v).1 ∙ start in
      (
        start,
        middle,
        (authorized now_grant policy.decision policy capability grant (checked run) a).1 ∙ middle,
      )

  -- A ticket is issued only where the store has the very policy decision it is asked for, which
  -- allows the capability, or requires an approval that is given: a grant that the store has for the
  -- decision and the capability, and that has not expired. The ticket is then made from the manifest
  -- that the kernel has for the capability, which suits it, and it is recorded; nothing else changes.
  pub issued_lem :
      (issue_ticket_after_policy p uuid now_timeout now_grant policy capability grant k).0
        ≡ ok ticket
      → (lookup policy.decision_id k.store.policy_decisions ≡ some policy)
        × Allowed k
        × Issued p uuid policy capability ticket k after
  issued_lem h =
      let (run, r, t, v, a) = raw_issued h in
      let (manifest, signature_ref, same, q, suits, signed, bound, saved) =
        raw_bound run r t v a h in
      let (start, middle, end) = unchanged run t v a in
      let (allowed, _) =
        authorized now_grant policy.decision policy capability grant (checked run) a in
      (
        ap (λ x. lookup policy.decision_id x.store.policy_decisions) (sym start)
            ∙ (recorded policy (timed run) v).0,
        subst Allowed middle allowed,
        record {
          same_capability = unequal_false policy.capability_id capability.capability_id same;
          manifest = manifest;
          signature_ref = signature_ref;
          installed = ap (λ x. lookup capability.capability_id x.executors) (sym end) ∙ q;
          suits = suits;
          signed = signed;
          bound =
              bound
              ∙ ap (λ x. ticket_for p x.actor_id uuid policy capability manifest signature_ref) end;
          saved = ap (λ x. stored (record_ticket ticket) x) (sym end) ∙ saved;
        },
      )
