-- ===== src/Core/Frame.antt =====
-- Which recorded facts the calls of a ticket's life leave as they are, whether they succeed or fail.
use essence_agent.Base.{ℕ, String, ◌≡◌, ◌∙◌, arith, inl, inr, Option-cases}
use essence_agent.Base.Table.{lookup}
use essence_agent.Contracts.{
  RunContract, CapabilityContract, ExecutionTicket, SandboxInput, SandboxResult,
}
use essence_agent.Platform.{Platform}
use essence_agent.Store.{
  Store, get_run_status, consume_ticket, record_tool_call, increment_counter, transition_run_status,
  record_sandbox_result, execution_ticket, sandbox_result, record_proof,
}
use essence_agent.Core.Errors.{CoreResult}
use essence_agent.Core.Kernel.{
  Kernel, Executors, enforce_run_timeout, run_ticket, accept_answer, execute, verify,
}

-- The facts that an account of an event needs and that no call on a ticket writes.
pub record Keeps (before after : Store) : Type 0 where
  pub capability_contracts : after.capability_contracts ≡ before.capability_contracts
  pub executor_manifests : after.executor_manifests ≡ before.executor_manifests
  pub policy_decisions : after.policy_decisions ≡ before.policy_decisions
  pub approval_grants : after.approval_grants ≡ before.approval_grants

pub Keeps-trans : (a b c : Store) → Keeps a b → Keeps b c → Keeps a c
Keeps-trans a b c first second = record {
  capability_contracts = second.capability_contracts ∙ first.capability_contracts;
  executor_manifests = second.executor_manifests ∙ first.executor_manifests;
  policy_decisions = second.policy_decisions ∙ first.policy_decisions;
  approval_grants = second.approval_grants ∙ first.approval_grants;
}

run_ticket-Keeps :
    (now : ℕ) (ticket : ExecutionTicket) (k : Kernel)
    → Keeps k.store (run_ticket now ticket k).1.store
unfolding run_ticket consume_ticket record_tool_call increment_counter transition_run_status
run_ticket-Keeps now ticket k = ground arith

accept_answer-Keeps :
    (p : Platform) (run : RunContract) (capability : CapabilityContract) (ticket : ExecutionTicket)
    (input : SandboxInput) (answer : CoreResult SandboxResult) (k : Kernel)
    → Keeps k.store (accept_answer p run capability ticket input answer k).1.store
unfolding accept_answer record_sandbox_result transition_run_status
accept_answer-Keeps p run capability ticket input answer k = ground arith

enforce_run_timeout-Keeps :
    (p : Platform) (now : ℕ) (run : RunContract) (k : Kernel)
    → Keeps k.store (enforce_run_timeout p now run k).1.store
unfolding enforce_run_timeout get_run_status transition_run_status
enforce_run_timeout-Keeps p now run k = ground arith

pub verify-Keeps :
    (p : Platform) (uuid : String) (now : ℕ) (result : SandboxResult) (k : Kernel)
    → Keeps k.store (verify p uuid now result k).1.store
unfolding verify sandbox_result execution_ticket transition_run_status record_proof
verify-Keeps p uuid now result k = ground arith

pub verify_facts :
    (p : Platform) (uuid : String) (now : ℕ) (result : SandboxResult) (k : Kernel)
    → ((verify p uuid now result k).1.store.execution_tickets ≡ k.store.execution_tickets)
      × ((verify p uuid now result k).1.store.sandbox_results ≡ k.store.sandbox_results)
unfolding verify sandbox_result execution_ticket transition_run_status record_proof
verify_facts p uuid now result k = ground arith

module _ (p : Platform) (executors : Executors) (now_timeout now_expiry now_consume : ℕ)
    (ticket : ExecutionTicket) (input : SandboxInput) where
  pub execute-Keeps :
      (k : Kernel)
      → Keeps k.store
          (execute p executors now_timeout now_expiry now_consume ticket input k).1.store
  unfolding execute execution_ticket
  execute-Keeps k = elim (Option-cases (lookup ticket.run_id k.runs)) [
    | inl missing ↦ ground arith
    | inr (run, found) ↦
        let timed = (enforce_run_timeout p now_timeout run k).1 in
        let taken = (run_ticket now_consume ticket timed).1 in
        elim (Option-cases (lookup ticket.capability_id timed.registry)) [
          | inl missing ↦ ground (arith, enforce_run_timeout-Keeps p now_timeout run k)
          | inr (capability, registered) ↦
              elim (Option-cases (lookup ticket.capability_id timed.executors)) [
                | inl missing ↦ ground (arith, enforce_run_timeout-Keeps p now_timeout run k)
                | inr (manifest, installed) ↦ ground (
                  arith,
                  enforce_run_timeout-Keeps p now_timeout run k,
                  run_ticket-Keeps now_consume ticket timed,
                  accept_answer-Keeps p run capability ticket input
                      (executors manifest ticket input) taken,
                )
              ]
        ]
  ]
