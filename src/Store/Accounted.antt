-- ===== src/Store/Accounted.antt =====
-- The audit of one successful event: what `verify_successful_ledger_event` accepts.
use essence_agent.Base.{
  String, ◌≡◌, ◌≢◌, ◌↔◌, refl, ◌+◌, inl, inr, false, some, List, [], ◌∷◌, arith, string_eq, All,
  is_empty, Option-cases,
}
use essence_agent.Base.Table.{lookup}
use essence_agent.Base.Outcome.Pure.{ok}
use essence_agent.Contracts.{
  LedgerEvent, PolicyDecision, Decision-eq, SandboxResult, Proof, CapabilityContract,
  ExecutorManifest,
}
use essence_agent.Platform.{Platform}
use essence_agent.Store.{
  Store, TicketRow, execution_ticket, capability_contract, executor_manifest, policy_decision,
  sandbox_result, proof, AuditReplayReport, verify_policy_allows, verify_proofs,
  verify_successful_ledger_event, verify_event_ticket_binding, verify_event_capability_binding,
  verify_event_executor_binding, verify_event_policy_binding, verify_event_result_binding,
}
use essence_agent.Store.Evidence.{
  ProofMatches, ticket_iff, capability_iff, executor_iff, policy_iff, result_iff, proof_iff,
}
use essence_agent.Store.Account.{IsAccounted}
use essence_agent.Store.Approved.{allows-of_ok, ok-of_allows}

abbrev ProofsMatch : Platform → Store → LedgerEvent → SandboxResult → List String → Type 0
ProofsMatch p s event outcome = All (λ id.
    (evidence : Proof) × (lookup id s.proofs ≡ some evidence)
    × ProofMatches p event outcome evidence)

module _ (p : Platform) (s : Store) (event : LedgerEvent) (outcome : SandboxResult) where
  proofs_match :
      (refs : List String) (report : AuditReplayReport)
      → (verify_proofs p s event outcome refs report).0 ≡ ok tt
      → ProofsMatch p s event outcome refs
  unfolding verify_proofs proof
  proofs_match [] report h = tt
  proofs_match (id ∷ refs) report h = elim (Option-cases (lookup id s.proofs)) [
    | inl missing ↦ absurd (ground arith)
    | inr (evidence, found) ↦ (
      (evidence, found, (proof_iff p event outcome evidence).0 (ground arith, ground arith)),
      proofs_match refs (record report { proofs = report.proofs + 1 }) (ground arith),
    )
  ]

  proofs_pass :
      (refs : List String) (report : AuditReplayReport)
      → ProofsMatch p s event outcome refs
      → (verify_proofs p s event outcome refs report).0 ≡ ok tt
  unfolding verify_proofs proof
  proofs_pass [] report h = refl
  proofs_pass (id ∷ refs) report ((evidence, found, matches), rest) =
      let (bound, hashed) = (proof_iff p event outcome evidence).1 matches in
      ground
        (arith, bound, hashed, proofs_pass refs (record report { proofs = report.proofs + 1 }) rest)

nonempty_of_is_empty : {A : Type 0} (xs : List A) → is_empty xs ≡ false → xs ≢ []
nonempty_of_is_empty [] h e = cc
nonempty_of_is_empty (x ∷ xs) h e = cc

is_empty_of_nonempty : {A : Type 0} (xs : List A) → xs ≢ [] → is_empty xs ≡ false
is_empty_of_nonempty [] h = absurd (h refl)
is_empty_of_nonempty (x ∷ xs) h = refl

-- the report when the policy's decision is read, and when the proofs are
abbrev pub at_policy : AuditReplayReport → AuditReplayReport
at_policy report = record report {
  execution_tickets = report.execution_tickets + 1;
  capability_contracts = report.capability_contracts + 1;
  executor_manifests = report.executor_manifests + 1;
  policy_decisions = report.policy_decisions + 1;
}

abbrev pub at_proofs : AuditReplayReport → AuditReplayReport
at_proofs report = record report { sandbox_results = report.sandbox_results + 1 }

module _ (p : Platform) (s : Store) (event : LedgerEvent) (report : AuditReplayReport) where
  module _ (h : (verify_successful_ledger_event p s event report).0 ≡ ok tt) where
    given_proofs : is_empty event.proof_refs ≡ false
    unfolding verify_successful_ledger_event
    given_proofs = ground arith

    found_ticket :
        (row : TicketRow) × (lookup event.execution_ticket_ref s.execution_tickets ≡ some row)
        × (verify_event_ticket_binding event row.payload ≡ ok tt)
    unfolding verify_successful_ledger_event execution_ticket
    found_ticket = ground arith

    found_capability :
        (contract : CapabilityContract) × (lookup event.capability_id s.capability_contracts
          ≡ some contract)
        × (verify_event_capability_binding p event contract ≡ ok tt)
    unfolding verify_successful_ledger_event capability_contract
    found_capability = ground arith

    found_executor :
        (manifest : ExecutorManifest) × (lookup event.executor_ref s.executor_manifests
          ≡ some manifest)
        × (verify_event_executor_binding p event manifest ≡ ok tt)
    unfolding verify_successful_ledger_event executor_manifest
    found_executor = ground arith

    pub found_policy :
        (policy : PolicyDecision) × (lookup event.policy_decision_ref s.policy_decisions
          ≡ some policy)
        × (verify_event_policy_binding event policy ≡ ok tt)
        × ((verify_policy_allows s event policy (at_policy report)).0 ≡ ok tt)
        × ((outcome : SandboxResult) × (lookup event.execution_ticket_ref s.sandbox_results
              ≡ some outcome)
            × (verify_event_result_binding p event outcome ≡ ok tt)
            × ((verify_proofs p s event outcome event.proof_refs
                  (at_proofs (verify_policy_allows s event policy (at_policy report)).1)).0
                ≡ ok tt))
    unfolding verify_successful_ledger_event policy_decision sandbox_result
    found_policy = ground arith

  accounted : (verify_successful_ledger_event p s event report).0 ≡ ok tt → IsAccounted p s event
  accounted h =
      let (row, t, tb) = found_ticket h in
      let (contract, c, cb) = found_capability h in
      let (manifest, m, mb) = found_executor h in
      let (policy, q, qb, allowed, call) = found_policy h in
      let (outcome, o, ob, proven) = call in
      record {
        has_proofs = nonempty_of_is_empty event.proof_refs (given_proofs h);
        ticket = (row, t, (ticket_iff event row.payload).0 tb);
        capability = (contract, c, (capability_iff p event contract).0 cb);
        executor = (manifest, m, (executor_iff p event manifest).0 mb);
        policy = (
          policy,
          q,
          (policy_iff event policy).0 qb,
          allows-of_ok s event policy (at_policy report) allowed,
        );
        result = (
          outcome,
          o,
          (result_iff p event outcome).0 ob,
          proofs_match p s event outcome event.proof_refs
              (at_proofs (verify_policy_allows s event policy (at_policy report)).1) proven,
        );
      }

  accepted : IsAccounted p s event → (verify_successful_ledger_event p s event report).0 ≡ ok tt
  unfolding verify_successful_ledger_event execution_ticket capability_contract executor_manifest
      policy_decision sandbox_result
  accepted h =
      let (row, t, tm) = h.ticket in
      let (contract, c, cm) = h.capability in
      let (manifest, m, mm) = h.executor in
      let (policy, q, qm, allowed) = h.policy in
      let (outcome, o, om, proven) = h.result in
      ground (
        arith,
        is_empty_of_nonempty event.proof_refs h.has_proofs,
        (ticket_iff event row.payload).1 tm,
        (capability_iff p event contract).1 cm,
        (executor_iff p event manifest).1 mm,
        (policy_iff event policy).1 qm,
        ok-of_allows s event policy (at_policy report) allowed,
        (result_iff p event outcome).1 om,
        proofs_pass p s event outcome event.proof_refs
            (at_proofs (verify_policy_allows s event policy (at_policy report)).1) proven,
      )

-- `verify_successful_ledger_event` accepts an event, whatever the report so far, exactly when the
-- store accounts for it: a ticket, a contract, a manifest, a policy decision that was not denied
-- and is approved where it must be, a successful result, and at least one proof, each found under
-- the event's reference and each matching the event.
pub IsAccounted-iff :
    (p : Platform) (s : Store) (event : LedgerEvent) (report : AuditReplayReport)
    → ((verify_successful_ledger_event p s event report).0 ≡ ok tt) ↔ IsAccounted p s event
IsAccounted-iff p s event report = (accounted p s event report, accepted p s event report)
