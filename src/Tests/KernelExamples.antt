-- ===== src/Tests/KernelExamples.antt =====
-- The kernel's theorems at the states of the run.
use essence_agent.Base.{
  ℕ, max, String, ◌≡◌, ◌≢◌, ◌↔◌, ap, true, false, none, some, List, [], ◌∷◌, ◌++◌, is_empty, All,
}
use essence_agent.Base.Table.{lookup}
use essence_agent.Base.Text.{codes, ends_with, to_ascii_lowercase}
use essence_agent.Base.Outcome.Pure.{ok}
use essence_agent.Contracts.{
  RunContract, CapabilityContract, rank, Decision, RunStatus, PermissionMode, default_policy_config,
}
use essence_agent.Platform.{hash_json}
use essence_agent.Store.{
  sealed, row_of, latest_event_hash, has_event, TicketRow, proof_evidence_hash,
}
use essence_agent.Core.Patterns.{permission_mode_denial, is_network_resource}
use essence_agent.Core.Policy.{PolicyEvaluation, evaluate}
use essence_agent.Core.Manifests.{validate_result_ticket_binding}
use essence_agent.Core.Kernel.{
  propose_delta, add_timeout, issue_ticket_with_grant, issue_ticket_after_policy, execute, verify,
  commit, proof_for,
}
use essence_agent.Core.Verdict.{DenialGround, ApprovalGround, evaluate_iff}
use essence_agent.Core.Modes.{modes_lem}
use essence_agent.Core.Authority.{Allowed, Issued, issued_lem}
use essence_agent.Core.Proposed.{Follows, IsVerdict, status_of, proposed_lem}
use essence_agent.Core.Executed.{Performed, executed_lem}
use essence_agent.Core.Committed.{Settled, verified_lem, committed_lem}
use essence_agent.Tests.World.{plain, reader, delta, input, executors}
use essence_agent.Tests.Pipeline.{
  running, run, policy, grant, granted, ticket, issued, result, executed, evidence, verified, event,
  sealed_event,
}
use essence_agent.Tests.Steps.{propose_step, issue_step, execute_step, verify_step, commit_step}

issued_lem_example :
    (lookup "pd_1" granted.store.policy_decisions ≡ some policy)
    × Allowed plain "1" 35 35 policy reader (some grant) granted ticket granted
    × Issued plain "1" policy reader ticket granted
        (issue_ticket_after_policy plain "1" 35 35 policy reader (some grant) granted).1
unfolding issue_ticket_with_grant
issued_lem_example =
    issued_lem plain "1" 35 35 policy reader (some grant) granted ticket (ap (λ x. x.0) issue_step)

executed_lem_example :
    Performed plain executors 40 42 ticket input result issued
      (execute plain executors 40 40 42 ticket input issued).1
executed_lem_example =
    executed_lem plain executors 40 40 42 ticket input issued result (ap (λ x. x.0) execute_step)

verified_lem_example :
    (result.success ≡ true)
    × (result.output_hash ≡ hash_json plain result.output)
    × (lookup "ticket_1" executed.store.sandbox_results ≡ some result)
    × ((row : TicketRow) × (lookup "ticket_1" executed.store.execution_tickets ≡ some row)
        × (validate_result_ticket_binding result row.payload ≡ ok tt))
    × (evidence ≡ proof_for plain "1" 45 result)
    × (evidence.hash ≡ proof_evidence_hash plain result)
    × (lookup "proof_1" executed.store.proofs ≡ none)
    × (lookup "proof_1" (verify plain "1" 45 result executed).1.store.proofs ≡ some evidence)
    × (lookup "run_1" (verify plain "1" 45 result executed).1.store.run_states
        ≡ some RunStatus.verifying)
verified_lem_example =
    verified_lem plain "1" 45 result executed evidence (ap (λ x. x.0) verify_step)

committed_lem_example :
    (sealed_event ≡ sealed plain (latest_event_hash verified.store.ledger_events) event)
    × (has_event "le_1" verified.store.ledger_events ≡ false)
    × ((commit plain event verified).1.store ≡ record verified.store {
      run_states = (commit plain event verified).1.store.run_states;
      ledger_events = verified.store.ledger_events ++ row_of sealed_event ∷ [];
    })
    × Settled plain event verified (commit plain event verified).1
committed_lem_example = committed_lem plain event sealed_event verified (ap (λ x. x.0) commit_step)

proposed_lem_example :
    (found : RunContract) × (capability : CapabilityContract) × (expires_at : ℕ) × (lookup "run_1"
        running.runs
      ≡ some found)
    × (delta.run_id ≡ found.run_id)
    × (lookup "file.read" running.registry ≡ some capability)
    × (add_timeout plain 20 capability.timeout_ms ≡ some expires_at)
    × (policy.expires_at ≡ expires_at)
    × IsVerdict running.policy_config running.actor_id "1" found delta capability policy
    × (lookup "pd_1" running.store.policy_decisions ≡ none)
    × (lookup "pd_1" (propose_delta plain "1" 20 20 "run_1" delta running).1.store.policy_decisions
        ≡ some policy)
    × Follows policy.decision
        (status_of "run_1" running)
        (status_of "run_1" (propose_delta plain "1" 20 20 "run_1" delta running).1)
proposed_lem_example =
    proposed_lem plain "1" 20 20 "run_1" delta running policy (ap (λ x. x.0) propose_step)

abbrev verdict : PolicyEvaluation
verdict = evaluate default_policy_config run reader delta

evaluate_iff_example :
    (rank verdict.risk_level ≡ max (rank delta.risk_level) (rank reader.risk_level))
    × ((verdict.decision ≡ Decision.deny)
        ↔ DenialGround default_policy_config run reader verdict.risk_level)
    × ((verdict.decision ≡ Decision.require_approval) ↔ (
        (¬ DenialGround default_policy_config run reader verdict.risk_level)
        × ApprovalGround default_policy_config run reader verdict.risk_level))
    × ((verdict.decision ≡ Decision.allow) ↔ (
        (¬ DenialGround default_policy_config run reader verdict.risk_level)
        × (¬ ApprovalGround default_policy_config run reader verdict.risk_level)))
    × ((verdict.required_approval
          ≡ some (record {
            approval_policy = default_policy_config.approval_policy;
            approval_ref = default_policy_config.approval_ref;
          }))
        ↔ (verdict.decision ≡ Decision.require_approval))
    × ((verdict.required_approval ≡ none) ↔ (verdict.decision ≢ Decision.require_approval))
    × (is_empty verdict.reasons ≡ false)
evaluate_iff_example = evaluate_iff default_policy_config run reader delta

abbrev mixed : List String
mixed = "Memory.READ" ∷ "network.http" ∷ []

modes_lem_example :
    ((permission_mode_denial PermissionMode.read_only mixed ≡ none)
      ↔ All
          (λ resource. ends_with (to_ascii_lowercase (codes resource)) (codes ".read") ≡ true)
          mixed)
    × ((permission_mode_denial PermissionMode.workspace_write mixed ≡ none) ↔ (
        (permission_mode_denial PermissionMode.networked mixed ≡ none)
        × All
            (λ resource. is_network_resource (to_ascii_lowercase (codes resource)) ≡ false)
            mixed))
    × (permission_mode_denial PermissionMode.privileged mixed ≡ none)
modes_lem_example = modes_lem mixed
