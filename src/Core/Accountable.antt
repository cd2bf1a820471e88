-- ===== src/Core/Accountable.antt =====
-- From the ticket to the ledger: what `issue_ticket`, `execute`, `verify` and `commit` leave in the
-- store, against what the audit of moxi-store asks for.
use essence_agent.Base.{
  ℕ, ◌≤◌, String, ◌≡◌, inl, inr, sym, ap, ◌∙◌, Option, some, arith, string_eq, map, subst,
}
use mathlib.Core.List.{Memᴰ}
use essence_agent.Base.Table.{lookup}
use essence_agent.Base.Outcome.Pure.{ok}
use essence_agent.Contracts.{
  CapabilityContract, ExecutorManifest, PolicyDecision, Decision-eq, ApprovalGrant, ExecutionTicket,
  SandboxInput, SandboxResult, Proof, LedgerEvent,
}
use essence_agent.Platform.{Platform}
use essence_agent.Store.{Store, or_empty, sealed, latest_event_hash, grant_of_row, record_ticket}
use essence_agent.Store.Account.{IsAccounted, Allows}
use essence_agent.Core.Manifests.{
  executor_signature_ref, validate_result_ticket_binding, validate_executor_manifest,
}
use essence_agent.Core.Kernel.{
  Kernel, Executors, stored, ticket_for, issue_ticket_after_policy, execute, verify, commit,
  ledger_event_for_success,
}
use essence_agent.Core.Authority.{Allowed, Issued, issued_lem}
use essence_agent.Core.Executed.{executed_lem}
use essence_agent.Core.Committed.{verified_lem, committed_lem}
use essence_agent.Core.Frame.{Keeps, Keeps-trans, execute-Keeps, verify-Keeps, verify_facts}
use essence_agent.Core.Matching.{found_grant, bound_fields, grant_matches, stands}

module _ (p : Platform) (executors : Executors) (ticket_uuid proof_uuid event_uuid : String)
    (now_issue now_grant now_execute now_expiry now_consume now_proof now_event : ℕ)
    (policy : PolicyDecision) (capability : CapabilityContract) (manifest : ExecutorManifest)
    (grant : Option ApprovalGrant) (ticket : ExecutionTicket) (input : SandboxInput)
    (result : SandboxResult) (evidence : Proof) (resource_ref : String) (k : Kernel) where
  abbrev pub issued : Kernel
  issued = (issue_ticket_after_policy p ticket_uuid now_issue now_grant policy capability grant k).1

  abbrev pub executed : Kernel
  executed = (execute p executors now_execute now_expiry now_consume ticket input issued).1

  abbrev pub verified : Kernel
  verified = (verify p proof_uuid now_proof result executed).1

  abbrev pub success_event : LedgerEvent
  success_event =
      ledger_event_for_success event_uuid now_event result evidence resource_ref policy.decision_id
        policy.delta_id

  abbrev pub done : Kernel
  done = (commit p success_event verified).1

  kept : Keeps k.store issued.store → Keeps k.store verified.store
  kept first = Keeps-trans k.store issued.store verified.store first (
      Keeps-trans issued.store executed.store verified.store
        (execute-Keeps p executors now_execute now_expiry now_consume ticket input issued)
        (verify-Keeps p proof_uuid now_proof result executed))

  saved-Keeps :
      (after : Kernel)
      → stored (record_ticket ticket) k ≡ (ok tt, after)
      → Keeps k.store after.store
  unfolding record_ticket
  saved-Keeps after h = ground arith

  ticket_made :
      (given : Issued p ticket_uuid policy capability ticket k issued)
      → lookup capability.capability_id k.executors ≡ some manifest
      → executor_signature_ref manifest ≡ ok (or_empty manifest.signature_ref)
      → (ticket
          ≡ ticket_for p k.actor_id ticket_uuid policy capability manifest
              (or_empty manifest.signature_ref))
        × (validate_executor_manifest p capability manifest ≡ ok tt)
  ticket_made given found signature =
      ground (arith, given.installed, given.signed, given.bound, given.suits)

  approved :
      (s : Store) (previous : String)
      → validate_result_ticket_binding result ticket ≡ ok tt
      → ticket
        ≡ ticket_for p k.actor_id ticket_uuid policy capability manifest
            (or_empty manifest.signature_ref)
      → s.approval_grants ≡ k.store.approval_grants
      → ((given : ApprovalGrant) → grant ≡ some given → now_event ≤ given.expires_at)
      → Allowed p ticket_uuid now_issue now_grant policy capability grant k ticket k
      → Allows s (sealed p previous success_event) policy
  approved s previous bound made same in_time (inl allow) = record {
    not_denied = λ e. ground (arith, allow, e);
    approved = inl (λ e. ground (arith, allow, e));
  }
  approved s previous bound made same in_time (inr (required, (given, is_given, approves))) =
      record {
        not_denied = λ e. ground (arith, required, e);
        approved = inr (record {
          grant = given;
          recorded =
              subst (λ t. Memᴰ given (map grant_of_row t)) (sym same)
                (found_grant given.grant_id given k.store.approval_grants approves.is_recorded);
          for_policy = approves.policy_decision_ref;
          matches =
              grant_matches p event_uuid now_event policy capability manifest ticket result evidence
                resource_ref previous k.actor_id ticket_uuid made bound given k now_grant approves
                (in_time given is_given);
        });
      }

  -- From the ticket to the audit. Where `issue_ticket`, then `execute` on the ticket, then `verify` on
  -- the result, then `commit` of the event that `ledger_event_for_success` makes of result and proof
  -- all succeed, the store that is left accounts for the event in the sense of the audit. The kernel
  -- is the actor "kernel", its store has the contract and the manifest that the kernel uses, the
  -- manifest's signature reference is its own trimming, and a grant that is given has not expired when
  -- the event is made.
  pub accountable_lem :
      (issue_ticket_after_policy p ticket_uuid now_issue now_grant policy capability grant k).0
        ≡ ok ticket
      → (execute p executors now_execute now_expiry now_consume ticket input issued).0 ≡ ok result
      → (verify p proof_uuid now_proof result executed).0 ≡ ok evidence
      → (committed : LedgerEvent) → (commit p success_event verified).0 ≡ ok committed
      → lookup capability.capability_id k.executors ≡ some manifest
      → executor_signature_ref manifest ≡ ok (or_empty manifest.signature_ref)
      → lookup capability.capability_id k.store.capability_contracts ≡ some capability
      → lookup manifest.executor_id k.store.executor_manifests ≡ some manifest
      → k.actor_id ≡ "kernel"
      → ((given : ApprovalGrant) → grant ≡ some given → now_event ≤ given.expires_at)
      → IsAccounted p done.store committed
  accountable_lem issue_ok execute_ok verify_ok committed commit_ok found signature contract_kept
        manifest_kept actor in_time =
      let (recorded, allowed, ticketed) =
        issued_lem p ticket_uuid now_issue now_grant policy capability grant k ticket issue_ok in
      let performed =
        executed_lem p executors now_execute now_expiry now_consume ticket input issued result
          execute_ok in
      let (success, hash, proven_result, _, proof_made, _, _, proof_found, _) =
        verified_lem p proof_uuid now_proof result executed evidence verify_ok in
      let (sealed_is, _, store, _) = committed_lem p success_event committed verified commit_ok in
      let keeps = kept (saved-Keeps issued ticketed.saved) in
      let (made, suits) = ticket_made ticketed found signature in
      let (tickets, results) = verify_facts p proof_uuid now_proof result executed in
      let (
        same_ticket, same_run, same_capability, same_policy, _, _, same_executor, _, _, _, _, _,
      ) =
        bound_fields result ticket performed.result_bound in
      let refer = same_policy ∙ ap (λ t. t.policy_decision_ref) made in
      let named = same_capability ∙ ap (λ t. t.capability_id) made in
      let played = same_executor ∙ ap (λ t. t.executor_ref) made in
      let previous = latest_event_hash verified.store.ledger_events in
      let bound = performed.result_bound in
      subst (IsAccounted p done.store) (sym sealed_is) (
        stands p event_uuid now_event policy capability manifest ticket result evidence resource_ref
          previous k.actor_id ticket_uuid made bound done.store
          (record performed.row { consumed_at = some now_consume }) proof_uuid now_proof
          (cc performed.used) performed.issued (cc keeps.capability_contracts)
          (cc keeps.executor_manifests) (cc keeps.policy_decisions) (cc) (cc) actor suits
          ticketed.same_capability success hash proof_made refer
          (approved done.store previous bound made (cc keeps.approval_grants) in_time allowed))
