-- ===== src/Tests/TamperExample.antt =====
-- Two events whose hashes differ, and the ledger that they make.
use essence_agent.Base.{
  String, ◌≡◌, ◌≢◌, ◌⊎◌, inl, inr, ap, sym, ◌∙◌, refl, arith, Bool, true, false, ◌==◌, ==_iff,
  string_eq, List, [], ◌∷◌,
}
use essence_agent.Base
use essence_agent.Base.Outcome.Pure.{ok}
use essence_agent.Contracts.{LedgerEvent, EventResult}
use essence_agent.Platform.{hash_event}
use essence_agent.Store.{Store, sealed, row_of, validate_ledger_hash_chain}
use essence_agent.Store.Chain.{unsealed}
use essence_agent.Store.Tamper.{CollisionFree, latest_hash_determines}
use essence_agent.Tests.World.{plain}
use essence_agent.Tests.Pipeline.{event, sealed_event, committed}

abbrev failed_event : LedgerEvent
failed_event =
    sealed plain sealed_event.event_hash
      (record event { ledger_event_id = "le_2"; result = EventResult.failed })

abbrev two_events : Store
two_events = record committed.store {
  ledger_events = row_of sealed_event ∷ row_of failed_event ∷ [];
}

abbrev Known : LedgerEvent → Type 0
Known e = (e ≡ sealed_event) ⊎ (e ≡ failed_event)

hash_of :
    {a b : LedgerEvent} → a ≡ b → hash_event plain (unsealed a) ≡ hash_event plain (unsealed b)
hash_of h = ap (λ e. hash_event plain (unsealed e)) h

unequal : (s t : String) → (s == t) ≡ false → s ≢ t
unequal s t h e = ground (arith, (==_iff s t).1 e, h)

differ : hash_event plain (unsealed sealed_event) ≢ hash_event plain (unsealed failed_event)
unfolding string_eq essence_agent.Core.Kernel.ledger_event_for_success
differ h =
    unequal (hash_event plain (unsealed sealed_event)) (hash_event plain (unsealed failed_event))
      refl h

separate :
    (a b : LedgerEvent)
    → Known a
    → Known b
    → hash_event plain (unsealed a) ≡ hash_event plain (unsealed b)
    → unsealed a ≡ unsealed b
separate a b (inl x) (inl y) h = ap unsealed (x ∙ sym y)
separate a b (inl x) (inr y) h = absurd (differ (sym (hash_of x) ∙ h ∙ hash_of y))
separate a b (inr x) (inl y) h = absurd (differ (sym (hash_of y) ∙ sym h ∙ hash_of x))
separate a b (inr x) (inr y) h = ap unsealed (x ∙ sym y)

visible : (a : LedgerEvent) → Known a → hash_event plain (unsealed a) ≢ ""
unfolding string_eq essence_agent.Core.Kernel.ledger_event_for_success
visible a (inl x) h =
    unequal (hash_event plain (unsealed sealed_event)) "" refl (sym (hash_of x) ∙ h)
visible a (inr x) h =
    unequal (hash_event plain (unsealed failed_event)) "" refl (sym (hash_of x) ∙ h)

free : CollisionFree plain Known
free = record { injective = separate; nonempty = visible }

two_valid : (validate_ledger_hash_chain plain two_events).0 ≡ ok tt
unfolding validate_ledger_hash_chain Base.string_eq
    essence_agent.Core.Kernel.ledger_event_for_success
two_valid = refl

latest_hash_determines_example : two_events.ledger_events ≡ two_events.ledger_events
latest_hash_determines_example =
    latest_hash_determines plain free two_events two_events (inl refl, (inr refl, tt))
      (inl refl, (inr refl, tt)) two_valid two_valid refl
