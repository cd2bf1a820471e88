-- ===== src/Store/Audit.antt =====
-- `replay_ledger_audit`: the chain is validated, and each successful event is compared with the
-- facts that it refers to.
use essence_agent.Base.{
  ℕ, ◌+◌, String, Option, none, some, List, [], ◌∷◌, any, is_empty, ◌==◌, not, if◌then◌else◌,
}
use essence_agent.Base.Outcome.Pure.{Result, ok, err}
use essence_agent.Base.Outcome.Action.{Action, pure, lift, or_raise, raise_if, modify, ◌>>=◌, ◌>>◌}
use essence_agent.Contracts.{
  Decision, Decision-eq, EventResult, EventResult-eq, LedgerEvent, PolicyDecision, SandboxResult,
}
use essence_agent.Platform.{Platform}
use essence_agent.Store.State.{
  Store, StoreAction, StoreError, LedgerRow, ledger_audit_proof_required,
  ledger_audit_missing_ticket, ledger_audit_missing_policy_decision,
  ledger_audit_missing_capability_contract, ledger_audit_missing_executor_manifest,
  ledger_audit_denied_policy_decision, ledger_audit_missing_approval_grant,
  ledger_audit_missing_sandbox_result, ledger_audit_missing_proof,
}
use essence_agent.Store.Facts.{
  execution_ticket, capability_contract, executor_manifest, policy_decision,
  approval_grants_for_policy_decision, sandbox_result, proof,
}
use essence_agent.Store.Ledger.{validate_ledger_hash_chain}
use essence_agent.Store.Bindings.{
  verify_event_ticket_binding, verify_event_capability_binding, verify_event_executor_binding,
  verify_event_policy_binding, approval_grant_matches_event, verify_event_result_binding,
  verify_event_proof_binding, verify_proof_evidence_hash,
}

pub record AuditReplayReport : Type 0 where
  pub ledger_events : ℕ
  pub successful_events : ℕ
  pub policy_decisions : ℕ
  pub approval_grants : ℕ
  pub capability_contracts : ℕ
  pub executor_manifests : ℕ
  pub execution_tickets : ℕ
  pub sandbox_results : ℕ
  pub proofs : ℕ
  pub last_event_hash : Option String

-- `AuditReplayReport::default`
abbrev pub empty_report : AuditReplayReport
empty_report = record {
  ledger_events = 0;
  successful_events = 0;
  policy_decisions = 0;
  approval_grants = 0;
  capability_contracts = 0;
  executor_manifests = 0;
  execution_tickets = 0;
  sandbox_results = 0;
  proofs = 0;
  last_event_hash = none;
}

abbrev pub AuditAction : Type 0 → Type 0
AuditAction A = Action AuditReplayReport StoreError A

-- a query of the store, which the audit does not change
abbrev pub query : {A : Type 0} → Store → StoreAction A → AuditAction A
query s m report = ((m s).0, report)

-- the decision of a recorded policy, and the grant that it may want
unfoldable pub verify_policy_allows : Store → LedgerEvent → PolicyDecision → AuditAction (Unit {0})
verify_policy_allows s event policy = do
  raise_if (policy.decision == Decision.deny)
      (ledger_audit_denied_policy_decision event.ledger_event_id event.policy_decision_ref)
  if policy.decision == Decision.require_approval
      then (do
        grants ← query s (approval_grants_for_policy_decision policy.decision_id)
        raise_if (not (any (approval_grant_matches_event event) grants))
            (ledger_audit_missing_approval_grant event.ledger_event_id event.policy_decision_ref)
        modify (λ report. record report { approval_grants = report.approval_grants + 1 }))
      else pure tt

-- the loop over `event.proof_refs`
unfoldable pub verify_proofs :
    Platform → Store → LedgerEvent → SandboxResult → List String → AuditAction (Unit {0})
verify_proofs p s event result [] = pure tt
verify_proofs p s event result (proof_ref ∷ rest) =
    let remaining = verify_proofs p s event result rest in
    do
      found ← query s (proof proof_ref)
      evidence ← or_raise found (ledger_audit_missing_proof event.ledger_event_id proof_ref)
      modify (λ report. record report { proofs = report.proofs + 1 })
      lift (verify_event_proof_binding event evidence)
      lift (verify_proof_evidence_hash p event result evidence)
      remaining

unfoldable pub verify_successful_ledger_event :
    Platform → Store → LedgerEvent → AuditAction (Unit {0})
unfolding verify_policy_allows verify_proofs
verify_successful_ledger_event p s event = do
  raise_if (is_empty event.proof_refs) (ledger_audit_proof_required event.ledger_event_id)
  ticket_found ← query s (execution_ticket event.execution_ticket_ref)
  ticket ←
      or_raise ticket_found
        (ledger_audit_missing_ticket event.ledger_event_id event.execution_ticket_ref)
  modify (λ report. record report { execution_tickets = report.execution_tickets + 1 })
  lift (verify_event_ticket_binding event ticket)
  capability_found ← query s (capability_contract event.capability_id)
  capability ←
      or_raise capability_found
        (ledger_audit_missing_capability_contract event.ledger_event_id event.capability_id)
  modify (λ report. record report { capability_contracts = report.capability_contracts + 1 })
  lift (verify_event_capability_binding p event capability)
  manifest_found ← query s (executor_manifest event.executor_ref)
  manifest ←
      or_raise manifest_found
        (ledger_audit_missing_executor_manifest event.ledger_event_id event.executor_ref)
  modify (λ report. record report { executor_manifests = report.executor_manifests + 1 })
  lift (verify_event_executor_binding p event manifest)
  policy_found ← query s (policy_decision event.policy_decision_ref)
  policy ←
      or_raise policy_found
        (ledger_audit_missing_policy_decision event.ledger_event_id event.policy_decision_ref)
  modify (λ report. record report { policy_decisions = report.policy_decisions + 1 })
  lift (verify_event_policy_binding event policy)
  verify_policy_allows s event policy
  result_found ← query s (sandbox_result event.execution_ticket_ref)
  result ←
      or_raise result_found
        (ledger_audit_missing_sandbox_result event.ledger_event_id event.execution_ticket_ref)
  modify (λ report. record report { sandbox_results = report.sandbox_results + 1 })
  lift (verify_event_result_binding p event result)
  verify_proofs p s event result event.proof_refs

-- the body of the loop of `replay_ledger_audit`
unfoldable pub replay_event : Platform → Store → LedgerEvent → AuditAction (Unit {0})
unfolding verify_successful_ledger_event
replay_event p s event = do
  modify (λ report. record report {
    ledger_events = report.ledger_events + 1;
    last_event_hash = some event.event_hash;
  })
  if event.result == EventResult.success
      then (do
        modify (λ report. record report { successful_events = report.successful_events + 1 })
        verify_successful_ledger_event p s event)
      else pure tt

unfoldable pub replay_events : Platform → Store → List LedgerRow → AuditAction (Unit {0})
unfolding replay_event
replay_events p s [] = pure tt
replay_events p s (row ∷ rows) =
    let remaining = replay_events p s rows in do replay_event p s row.payload; remaining

abbrev pub report_of :
    Result StoreError (Unit {0}) × AuditReplayReport → Result StoreError AuditReplayReport
report_of (ok _, report) = ok report
report_of (err e, _) = err e

-- the report of the events, once the chain is known to hold
abbrev replay_valid :
    Platform → Store → Result StoreError (Unit {0}) → Result StoreError AuditReplayReport
replay_valid p s (err e) = err e
replay_valid p s (ok _) = report_of (replay_events p s s.ledger_events empty_report)

unfoldable pub replay_ledger_audit : Platform → StoreAction AuditReplayReport
unfolding replay_events
replay_ledger_audit p s = (replay_valid p s (validate_ledger_hash_chain p s).0, s)
