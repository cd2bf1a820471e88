-- ===== src/Hotpath/Total.antt =====
-- A controller of moxi-hotpath always decides, or names what is wrong with the cache.
use essence_agent.Base.{
  false, ◌≡◌, ◌⊎◌, inl, inr, refl, Option, none, some, List, [], ◌∷◌, any, is_empty, arith,
  Bool-cases, ◌==◌, ◌!=◌, find, leb, nat_eq, subst,
}
use essence_agent.Base.{ℕ}
use essence_agent.Base.Outcome.Pure.{Result, ok, err, Result-cases}
use essence_agent.Contracts.{RiskLevel, at_least}
use essence_agent.Hotpath.Data.{
  HotPathError, HotPathKind, HotPathKind-eq, SloClass, SloClass-eq, CacheSafety, CacheSafety-eq,
  LatencyBudget, HotPathRequest, CacheEntry, HotPathDecision, HotDecisionParts, HotPathController,
  Digests,
}
use essence_agent.Hotpath.Controller.{
  Failure, failed, new, budget, decision_with, hot_decision, defer, defer_parts, ack_parts,
  deny_parts, route_parts, by_cache, validate_cache_entry, route_or_defer, from_cache, decide,
  or_first,
}
use essence_agent.Hotpath.Decisions.{is_unsafe}

first_or :
    (budgets : List LatencyBudget) (found : Option LatencyBudget)
    → is_empty budgets ≡ false
    → (chosen : LatencyBudget) × (or_first budgets found ≡ ok chosen)
first_or budgets (some chosen) h = (chosen, refl)
first_or (first ∷ rest) none h = (first, refl)
first_or [] none h = absurd (ground arith)

made_nonempty :
    (budgets : List LatencyBudget) (controller : HotPathController)
    → new budgets ≡ ok controller
    → is_empty controller.budgets ≡ false
unfolding new
made_nonempty budgets controller h = ground arith

module _ (d : Digests) (now : ℕ) (budgets : List LatencyBudget) (controller : HotPathController)
    (request : HotPathRequest) (made : new budgets ≡ ok controller) where
  some_budget :
      (slo_class : SloClass) → (chosen : LatencyBudget) × (budget controller slo_class ≡ ok chosen)
  unfolding budget
  some_budget slo_class =
      first_or controller.budgets
        (find (λ candidate. candidate.slo_class == slo_class) controller.budgets)
        (made_nonempty budgets controller made)

  hot_total :
      (parts : HotDecisionParts)
      → (decision : HotPathDecision) × (hot_decision d now controller request parts ≡ ok decision)
  unfolding hot_decision
  hot_total parts =
      let (chosen, found) = some_budget parts.slo_class in
      (decision_with d now controller request parts chosen, ground (arith, found))

  route_total :
      (decision : HotPathDecision) × (route_or_defer d now controller request ≡ ok decision)
  unfolding route_or_defer defer
  route_total =
      let (route, found) = some_budget SloClass.ten_ms_route in
      elim (Bool-cases (leb request.deadline_ms route.max_route_ms)) [
        | inl soon ↦
            let (decision, h) = hot_total (route_parts d now controller request) in
            (decision, ground (arith, found, soon, h))
        | inr later ↦
            let (decision, h) = hot_total (
              defer_parts d now controller request HotPathKind.defer_to_task_path SloClass.task_path
                "request needs normal task path after first status") in
            (decision, ground (arith, found, later, h))
      ]

  -- A decision, or the cached entry that is refused and why.
  abbrev pub Decides : Option CacheEntry → Result Failure HotPathDecision → Type 0
  Decides cache_entry outcome =
      ((decision : HotPathDecision) × (outcome ≡ ok decision))
      ⊎ ((entry : CacheEntry) × (error : HotPathError) × (cache_entry ≡ some entry)
          × (validate_cache_entry d now controller request entry ≡ err error)
          × (outcome ≡ err (failed error)))

  cache_total :
      (cache_entry : Option CacheEntry)
      → Decides cache_entry (from_cache d now controller request cache_entry)
  unfolding from_cache
  cache_total none = inl route_total
  cache_total (some entry) =
      elim (Result-cases (validate_cache_entry d now controller request entry)) [
        | inr (error, refused) ↦ inr (entry, error, refl, refused, ground (arith, refused))
        | inl (_, valid) ↦ elim (Bool-cases (entry.safety != CacheSafety.semantic_needs_review)) [
          | inl plain ↦
              let (decision, h) = hot_total (by_cache d now controller request entry) in
              inl (decision, ground (arith, valid, plain, h))
          | inr review ↦
              let (decision, h) = route_total in inl (decision, ground (arith, valid, review, h))
        ]
      ]

  -- A controller that `new` made never panics: it decides every request, or returns the error of a
  -- cached entry that does not fit the request.
  pub decide_total :
      (cache_entry : Option CacheEntry)
      → Decides cache_entry (decide d now controller request cache_entry)
  unfolding decide defer
  decide_total cache_entry = elim (Bool-cases (at_least request.risk_level RiskLevel.high)) [
    | inl high ↦
        let (decision, h) = hot_total (
          defer_parts d now controller request HotPathKind.defer_to_trusted_execution
            SloClass.trusted_execution_path
            "high-risk request must enter trusted execution path") in
        inl (decision, ground (arith, high, h))
    | inr low ↦ elim (Bool-cases (is_empty request.requested_capabilities)) [
      | inl nothing ↦
          let (decision, h) = hot_total (ack_parts d now controller request) in
          inl (decision, ground (arith, low, nothing, h))
      | inr given ↦ elim (Bool-cases (any is_unsafe request.requested_capabilities)) [
        | inl unsafe ↦
            let (decision, h) = hot_total (deny_parts d now controller request) in
            inl (decision, ground (arith, low, given, unsafe, h))
        | inr safe ↦
            subst (Decides cache_entry) (ground (arith, low, given, safe)) (cache_total cache_entry)
      ]
    ]
  ]
