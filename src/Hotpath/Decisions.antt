-- ===== src/Hotpath/Decisions.antt =====
-- What the decisions of moxi-hotpath may be, and that there always is one.
use essence_agent.Base.{
  ℕ, ◌≤◌, ◌<◌, String, Bool, true, false, ◌≡◌, ◌≢◌, ◌⊎◌, inl, inr, refl, sym, Option, none, some,
  List, [], ◌∷◌, any, is_empty, arith, Bool-cases, Option-cases, ◌==◌, ◌!=◌, ==_iff, ◌||◌,
  string_eq, nat_eq, leb, subst,
}
use essence_agent.Base.Outcome.Pure.{ok, Result-cases}
use essence_agent.Contracts.{Decision, RiskLevel, rank, at_least}
use essence_agent.Hotpath.Data.{
  HotPathKind, HotPathKind-eq, HotPathKind-discrete, SloClass, SloClass-eq, CacheSafety,
  CacheSafety-eq, LatencyBudget, HotPathRequest, CacheEntry, HotPathDecision, HotDecisionParts,
  HotPathController, Digests,
}
use essence_agent.Hotpath.Controller.{
  budget, expected_first_packet_ms, decision_with, hot_decision, defer, validate_cache_entry,
  ack_parts, deny_parts, route_parts, defer_parts, by_cache, hit_kind, route_or_defer, from_cache,
  decide,
}

expected-le :
    (kind : HotPathKind) (b : LatencyBudget)
    → expected_first_packet_ms kind b ≤ b.max_first_packet_ms
unfolding expected_first_packet_ms
expected-le kind b = ground arith

-- A capability that is denied before planning.
abbrev pub is_unsafe : String → Bool
is_unsafe capability = capability == "network.write" || capability == "shell.exec"

-- An entry of the cache that may answer a request.
pub record IsUsable (request : HotPathRequest) (entry : CacheEntry) : Type 0 where
  pub same_scope : entry.scope_ref ≡ request.scope_ref
  pub fresh : 0 < entry.freshness_ms
  pub no_riskier : rank entry.risk_level ≤ rank request.risk_level
  pub not_high : rank entry.risk_level < 2

none_unsafe :
    (capabilities : List String) → is_empty capabilities ≡ true → any is_unsafe capabilities ≡ false
none_unsafe [] h = refl
none_unsafe (c ∷ cs) h = absurd (ground arith)

module _ (d : Digests) (now : ℕ) (controller : HotPathController) (request : HotPathRequest) where
  usable :
      (entry : CacheEntry)
      → validate_cache_entry d now controller request entry ≡ ok tt
      → IsUsable request entry
  unfolding validate_cache_entry
  usable entry h = ground arith

  -- What may be decided, and from what.
  abbrev pub Grounds : Option CacheEntry → HotPathKind → Decision → Option String → Type 0
  Grounds cache_entry kind decision selected_cache_key =
      ((2 ≤ rank request.risk_level)
        × (kind ≡ HotPathKind.defer_to_trusted_execution)
        × (decision ≡ Decision.require_approval))
      ⊎ ((rank request.risk_level < 2)
          × (any is_unsafe request.requested_capabilities ≡ true)
          × (kind ≡ HotPathKind.early_deny)
          × (decision ≡ Decision.deny))
      ⊎ ((rank request.risk_level < 2)
          × (any is_unsafe request.requested_capabilities ≡ false)
          × (decision ≡ Decision.allow)
          × ((selected_cache_key ≡ none)
              ⊎ ((entry : CacheEntry) × (cache_entry ≡ some entry)
                  × IsUsable request entry
                  × (entry.safety ≢ CacheSafety.semantic_needs_review)
                  × (selected_cache_key ≡ some entry.cache_key)
                  × (kind ≡ hit_kind entry.kind))))

  -- A decision that was made of parts that have their grounds.
  abbrev Made : Option CacheEntry → HotPathDecision → Type 0
  Made cache_entry decision =
      (parts : HotDecisionParts) × (chosen : LatencyBudget) × (decision
        ≡ decision_with d now controller request parts chosen)
      × Grounds cache_entry parts.kind parts.decision parts.selected_cache_key

  hot_made :
      (parts : HotDecisionParts) (decision : HotPathDecision)
      → hot_decision d now controller request parts ≡ ok decision
      → (chosen : LatencyBudget) × (decision ≡ decision_with d now controller request parts chosen)
  unfolding hot_decision
  hot_made parts decision h = elim (Result-cases (budget controller parts.slo_class)) [
    | inl (chosen, found) ↦ (chosen, ground (arith, found, h))
    | inr (error, missing) ↦ absurd (ground (arith, missing, h))
  ]

  Made-of_parts :
      (cache_entry : Option CacheEntry) (parts : HotDecisionParts) (decision : HotPathDecision)
      → hot_decision d now controller request parts ≡ ok decision
      → Grounds cache_entry parts.kind parts.decision parts.selected_cache_key
      → Made cache_entry decision
  Made-of_parts cache_entry parts decision h grounds =
      let (chosen, made) = hot_made parts decision h in (parts, chosen, made, grounds)

  module _ (cache_entry : Option CacheEntry) (decision : HotPathDecision)
      (low : rank request.risk_level < 2)
      (safe : any is_unsafe request.requested_capabilities ≡ false) where
    routed : route_or_defer d now controller request ≡ ok decision → Made cache_entry decision
    unfolding route_or_defer defer HotPathKind-eq HotPathKind-discrete
    routed h = elim (Result-cases (budget controller SloClass.ten_ms_route)) [
      | inr (error, missing) ↦ absurd (ground (arith, missing, h))
      | inl (route, found) ↦ elim (Bool-cases (leb request.deadline_ms route.max_route_ms)) [
        | inl soon ↦
            Made-of_parts cache_entry (route_parts d now controller request) decision
              (ground (arith, found, soon, h)) (inr (inr (low, safe, refl, inl refl)))
        | inr later ↦
            Made-of_parts cache_entry
              (defer_parts d now controller request HotPathKind.defer_to_task_path
                SloClass.task_path "request needs normal task path after first status")
              decision (ground (arith, found, later, h)) (inr (inr (low, safe, refl, inl refl)))
      ]
    ]

    answered :
        from_cache d now controller request cache_entry ≡ ok decision → Made cache_entry decision
    unfolding from_cache
    answered h = elim (Option-cases cache_entry) [
      | inl none_given ↦ routed (ground (arith, none_given, h))
      | inr (entry, is_entry) ↦
          elim (Result-cases (validate_cache_entry d now controller request entry)) [
            | inr (error, refused) ↦ absurd (ground (arith, is_entry, refused, h))
            | inl (_, valid) ↦
                elim (Bool-cases (entry.safety != CacheSafety.semantic_needs_review)) [
                  | inr review ↦ routed (ground (arith, is_entry, valid, review, h))
                  | inl plain ↦
                      Made-of_parts cache_entry (by_cache d now controller request entry) decision
                        (ground (arith, is_entry, valid, plain, h))
                        (inr (
                          inr (
                            low,
                            safe,
                            refl,
                            inr (
                              entry,
                              is_entry,
                              usable entry valid,
                              λ same. ground (
                                arith,
                                plain,
                                (==_iff entry.safety CacheSafety.semantic_needs_review).1 same,
                              ),
                              refl,
                              refl,
                            ),
                          )))
                ]
          ]
    ]

  decided :
      (cache_entry : Option CacheEntry) (decision : HotPathDecision)
      → decide d now controller request cache_entry ≡ ok decision
      → Made cache_entry decision
  unfolding decide defer HotPathKind-eq HotPathKind-discrete
  decided cache_entry decision h = elim (Bool-cases (at_least request.risk_level RiskLevel.high)) [
    | inl high ↦
        Made-of_parts cache_entry
          (defer_parts d now controller request HotPathKind.defer_to_trusted_execution
            SloClass.trusted_execution_path "high-risk request must enter trusted execution path")
          decision (ground (arith, high, h)) (inl (ground (arith, high), refl, refl))
    | inr low ↦ elim (Bool-cases (is_empty request.requested_capabilities)) [
      | inl nothing ↦
          Made-of_parts cache_entry (ack_parts d now controller request) decision
            (ground (arith, low, nothing, h))
            (inr (
              inr (
                ground (arith, low),
                none_unsafe request.requested_capabilities nothing,
                refl,
                inl refl,
              )))
      | inr given ↦ elim (Bool-cases (any is_unsafe request.requested_capabilities)) [
        | inl unsafe ↦
            Made-of_parts cache_entry (deny_parts d now controller request) decision
              (ground (arith, low, given, unsafe, h))
              (inr (inl (ground (arith, low), unsafe, refl, refl)))
        | inr safe ↦
            answered cache_entry decision (ground (arith, low)) safe
              (ground (arith, low, given, safe, h))
      ]
    ]
  ]

  -- A decision of the hot path never executes a tool and never authorizes, and expects its first
  -- packet within its budget. From a high risk up it asks for an approval, on the trusted execution
  -- path; below that, an unsafe capability is denied, and anything else allowed: without the cache,
  -- or from an entry that is in the request's scope, fresh, not riskier than the request, and needs no
  -- review.
  pub decide_lem :
      (cache_entry : Option CacheEntry) (decision : HotPathDecision)
      → decide d now controller request cache_entry ≡ ok decision
      → (decision.cannot_execute_tools ≡ true)
        × (decision.cannot_authorize ≡ true)
        × (decision.expected_first_packet_ms ≤ decision.first_packet_budget_ms)
        × Grounds cache_entry decision.kind decision.decision decision.selected_cache_key
  decide_lem cache_entry decision h =
      let (parts, chosen, made, grounds) = decided cache_entry decision h in
      subst
        (λ x.
          (x.cannot_execute_tools ≡ true)
          × (x.cannot_authorize ≡ true)
          × (x.expected_first_packet_ms ≤ x.first_packet_budget_ms)
          × Grounds cache_entry x.kind x.decision x.selected_cache_key)
        (sym made) (refl, refl, expected-le parts.kind chosen, grounds)
