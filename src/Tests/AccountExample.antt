-- ===== src/Tests/AccountExample.antt =====
-- The run of Tests/Pipeline.antt, from its ticket to its ledger.
use essence_agent.Base.{
  [], ◌∷◌, ◌++◌, ◌==◌, if◌then◌else◌, string_eq, ◌≡◌, refl, ap, ◌∙◌, some, arith,
}
use essence_agent.Base.Outcome.Pure.{ok}
use essence_agent.Base
use essence_agent.Base.Text
use essence_agent.Core.Manifests.{executor_signature_ref}
use essence_agent.Base.Table.{lookup}
use essence_agent.Store.{append_ledger_event}
use essence_agent.Store.Listings.{observe_run}
use essence_agent.Store.Observed.{observe-append}
use essence_agent.Store.Account.{IsAccounted}
use essence_agent.Core.Kernel.{
  Kernel, issue_ticket_after_policy, issue_ticket_with_grant, execute, verify, commit,
}
use essence_agent.Core.Accountable.{accountable_lem, done}
use essence_agent.Tests.World.{plain, reader, reading, input, executors}
use essence_agent.Tests.Pipeline.{
  policy, grant, granted, ticket, issued, result, executed, evidence, verified, event, sealed_event,
}
use essence_agent.Tests.Steps.{issue_step, execute_step, verify_step, commit_step}

abbrev issued_by : Kernel
issued_by = (issue_ticket_after_policy plain "1" 35 35 policy reader (some grant) granted).1

abbrev executed_by : Kernel
executed_by = (execute plain executors 40 40 42 ticket input issued_by).1

abbrev verified_by : Kernel
verified_by = (verify plain "1" 45 result executed_by).1

at_issue : issued_by ≡ issued
unfolding issue_ticket_with_grant
at_issue = ap (λ x. x.1) issue_step

at_execute : executed_by ≡ executed
at_execute =
    ap (λ k. (execute plain executors 40 40 42 ticket input k).1) at_issue
    ∙ ap (λ x. x.1) execute_step

at_verify : verified_by ≡ verified
at_verify = ap (λ k. (verify plain "1" 45 result k).1) at_execute ∙ ap (λ x. x.1) verify_step

found : lookup "file.read" granted.executors ≡ some reading
unfolding Base.string_eq
found = refl

found_contract : lookup "file.read" granted.store.capability_contracts ≡ some reader
unfolding Base.string_eq
found_contract = refl

found_manifest : lookup "reader-1" granted.store.executor_manifests ≡ some reading
unfolding Base.string_eq
found_manifest = refl

signature : executor_signature_ref reading ≡ ok "sig-1"
unfolding executor_signature_ref Text.trim_text Base.nat_eq Text.is_whitespace
signature = refl

accountable_lem_example :
    IsAccounted plain
      (done plain executors "1" "1" "1" 35 35 40 40 42 45 50 policy reader reading
        (some grant)
        ticket
        input
        result
        evidence
        "a.txt"
        granted).store
      sealed_event
unfolding issue_ticket_with_grant
accountable_lem_example =
    accountable_lem plain executors "1" "1" "1" 35 35 40 40 42 45 50 policy reader reading
      (some grant) ticket input result evidence "a.txt" granted (ap (λ x. x.0) issue_step)
      (ap (λ k. (execute plain executors 40 40 42 ticket input k).0) at_issue
        ∙ ap (λ x. x.0) execute_step)
      (ap (λ k. (verify plain "1" 45 result k).0) at_execute ∙ ap (λ x. x.0) verify_step)
      sealed_event (ap (λ k. (commit plain event k).0) at_verify ∙ ap (λ x. x.0) commit_step) found
      signature found_contract found_manifest refl (λ given is_given. ground arith)

appends : (append_ledger_event plain event verified.store).0 ≡ ok sealed_event
unfolding append_ledger_event
appends = refl

observe-append_example :
    observe_run "run_1" (append_ledger_event plain event verified.store).1
    ≡ record (observe_run "run_1" verified.store) {
      ledger_events =
          (observe_run "run_1" verified.store).ledger_events
          ++ (if sealed_event.run_id == "run_1" then sealed_event ∷ [] else []);
    }
observe-append_example = observe-append plain event sealed_event verified.store "run_1" appends
