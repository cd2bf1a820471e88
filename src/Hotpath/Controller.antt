-- ===== src/Hotpath/Controller.antt =====
-- `HotPathController` of crates/moxi-hotpath/src/lib.rs: the decision about a request and the plan
-- behind it. `expect` on a missing budget is the result `panic`; `Utc::now()` is an argument.

use essence_agent.Base.{
  ℕ, String, Bool, true, false, Option, none, some, List, [], ◌∷◌, if◌then◌else◌, is_empty, any,
  find, ◌==◌, ◌!=◌, ◌||◌, not, string_eq, nat_eq, leb, min,
}
use essence_agent.Base.Text.{concat}
use essence_agent.Base.Outcome.Pure.{Result, ok, err, fail_if, ◌>>=◌, ◌>>◌}
use essence_agent.Contracts.{Decision, RiskLevel, at_least}
use essence_agent.Platform.{stable_id}
use essence_agent.Hotpath.Data.{
  HotPathError, cache_scope_mismatch, cache_stale, cache_risk_too_high, missing_slo_class,
  HotPathKind, HotPathKind-eq, SloClass, SloClass-eq, CacheKind, CacheSafety, CacheSafety-eq,
  DegradeAction, LatencyBudget, HotPathRequest, CacheEntry, HotPathDecision, HotPathFact,
  DegradePlan, HotDecisionParts, HotPathController, Digests,
}

-- how a method may fail to return a value
pub data Failure : Type 0 where
  failed : HotPathError → Failure
  panic : Failure

-- `HotPathController::new`
unfoldable pub new : List LatencyBudget → Result HotPathError HotPathController
new budgets = if is_empty budgets then err missing_slo_class else ok (record { budgets = budgets })

abbrev pub or_first : List LatencyBudget → Option LatencyBudget → Result Failure LatencyBudget
or_first budgets (some budget) = ok budget
or_first (budget ∷ rest) none = ok budget
or_first [] none = err panic

unfoldable pub budget : HotPathController → SloClass → Result Failure LatencyBudget
budget controller slo_class =
    or_first controller.budgets
      (find (λ candidate. candidate.slo_class == slo_class) controller.budgets)

unfoldable pub expected_first_packet_ms : HotPathKind → LatencyBudget → ℕ
expected_first_packet_ms HotPathKind.ack budget = min budget.max_first_packet_ms 5
expected_first_packet_ms HotPathKind.early_deny budget = min budget.max_first_packet_ms 5
expected_first_packet_ms HotPathKind.route budget =
    min budget.max_route_ms budget.max_first_packet_ms
expected_first_packet_ms HotPathKind.exact_cache_hit budget =
    min budget.max_cache_lookup_ms budget.max_first_packet_ms
expected_first_packet_ms HotPathKind.template_cache_hit budget =
    min budget.max_cache_lookup_ms budget.max_first_packet_ms
expected_first_packet_ms HotPathKind.defer_to_task_path budget = budget.max_first_packet_ms
expected_first_packet_ms HotPathKind.defer_to_trusted_execution budget = budget.max_first_packet_ms

abbrev pub hit_kind : CacheKind → HotPathKind
hit_kind CacheKind.exact = HotPathKind.exact_cache_hit
hit_kind CacheKind.template = HotPathKind.template_cache_hit
hit_kind CacheKind.semantic = HotPathKind.defer_to_task_path

module _ (d : Digests) (now : ℕ) (controller : HotPathController) (request : HotPathRequest) where
  abbrev pub decision_with : HotDecisionParts → LatencyBudget → HotPathDecision
  decision_with parts chosen = record {
    decision_id = stable_id d.sha256_hex "hotpath_decision" (
        d.decision_json request.request_id parts.kind parts.decision parts.slo_class
          parts.selected_cache_key);
    request_id = request.request_id;
    kind = parts.kind;
    decision = parts.decision;
    slo_class = parts.slo_class;
    first_packet_budget_ms = chosen.max_first_packet_ms;
    expected_first_packet_ms = expected_first_packet_ms parts.kind chosen;
    selected_cache_key = parts.selected_cache_key;
    route_ref = request.intent_ref;
    degrade_plan_ref = none;
    evidence_refs = parts.evidence_refs;
    reasons = parts.reasons;
    cannot_execute_tools = true;
    cannot_authorize = true;
    created_at = now;
  }

  unfoldable pub hot_decision : HotDecisionParts → Result Failure HotPathDecision
  unfolding budget
  hot_decision parts = do
    chosen ← budget controller parts.slo_class
    ok (decision_with parts chosen)

  abbrev pub defer_parts : HotPathKind → SloClass → String → HotDecisionParts
  defer_parts kind slo_class reason = record {
    kind = kind;
    decision =
        if kind == HotPathKind.defer_to_trusted_execution
        then Decision.require_approval
        else Decision.allow;
    slo_class = slo_class;
    selected_cache_key = none;
    reasons = reason ∷ [];
    evidence_refs = request.request_id ∷ [];
  }

  unfoldable pub defer : HotPathKind → SloClass → String → Result Failure HotPathDecision
  unfolding hot_decision
  defer kind slo_class reason = hot_decision (defer_parts kind slo_class reason)

  unfoldable pub validate_cache_entry : CacheEntry → Result HotPathError (Unit {0})
  validate_cache_entry entry = do
    fail_if (entry.scope_ref != request.scope_ref) cache_scope_mismatch
    fail_if (entry.freshness_ms == 0) cache_stale
    fail_if
        (not (at_least request.risk_level entry.risk_level)
          || at_least entry.risk_level RiskLevel.high)
        cache_risk_too_high

  -- the decision that needs nothing but the request
  abbrev pub by_request : HotPathKind → Decision → SloClass → String → HotDecisionParts
  by_request kind decision slo_class reason = record {
    kind = kind;
    decision = decision;
    slo_class = slo_class;
    selected_cache_key = none;
    reasons = reason ∷ [];
    evidence_refs = request.request_id ∷ [];
  }

  abbrev pub ack_parts : HotDecisionParts
  ack_parts =
      by_request HotPathKind.ack Decision.allow SloClass.five_ms_ack
        "request accepted; no capability decision needed yet"

  abbrev pub deny_parts : HotDecisionParts
  deny_parts =
      by_request HotPathKind.early_deny Decision.deny SloClass.five_ms_ack
        "unsafe capability is denied before task planning"

  abbrev pub route_parts : HotDecisionParts
  route_parts =
      by_request HotPathKind.route Decision.allow SloClass.ten_ms_route
        "low-risk request can be routed before model execution"

  abbrev pub by_cache : CacheEntry → HotDecisionParts
  by_cache entry = record {
    kind = hit_kind entry.kind;
    decision = Decision.allow;
    slo_class = SloClass.fifty_ms_cache;
    selected_cache_key = some entry.cache_key;
    reasons = "bounded cache hit can return first packet" ∷ [];
    evidence_refs = entry.evidence_refs;
  }

  -- what follows the look at the cache
  unfoldable pub route_or_defer : Result Failure HotPathDecision
  unfolding hot_decision defer
  route_or_defer = do
    route ← budget controller SloClass.ten_ms_route
    if leb request.deadline_ms route.max_route_ms
        then hot_decision route_parts
        else defer HotPathKind.defer_to_task_path SloClass.task_path
            "request needs normal task path after first status"

  abbrev lifted : Result HotPathError (Unit {0}) → Result Failure (Unit {0})
  lifted (ok _) = ok tt
  lifted (err error) = err (failed error)

  unfoldable pub from_cache : Option CacheEntry → Result Failure HotPathDecision
  unfolding validate_cache_entry route_or_defer
  from_cache none = route_or_defer
  from_cache (some entry) = do
    lifted (validate_cache_entry entry)
    if entry.safety != CacheSafety.semantic_needs_review
        then hot_decision (by_cache entry)
        else route_or_defer

  unfoldable pub decide : Option CacheEntry → Result Failure HotPathDecision
  unfolding from_cache
  decide cache_entry =
      if at_least request.risk_level RiskLevel.high
      then defer HotPathKind.defer_to_trusted_execution SloClass.trusted_execution_path
          "high-risk request must enter trusted execution path"
      else if is_empty request.requested_capabilities
      then hot_decision ack_parts
      else if any (λ capability. capability == "network.write" || capability == "shell.exec")
          request.requested_capabilities
      then hot_decision deny_parts
      else from_cache cache_entry

abbrev pub degrade_actions : HotPathKind → List DegradeAction
degrade_actions HotPathKind.ack = DegradeAction.return_ack ∷ DegradeAction.switch_to_task_path ∷ []
degrade_actions HotPathKind.route =
    DegradeAction.return_ack ∷ DegradeAction.switch_to_task_path ∷ []
degrade_actions HotPathKind.exact_cache_hit =
    DegradeAction.return_cached_status ∷ DegradeAction.switch_to_task_path ∷ []
degrade_actions HotPathKind.template_cache_hit =
    DegradeAction.return_cached_status ∷ DegradeAction.switch_to_task_path ∷ []
degrade_actions HotPathKind.early_deny = DegradeAction.deny ∷ []
degrade_actions HotPathKind.defer_to_trusted_execution =
    DegradeAction.return_ack ∷ DegradeAction.switch_to_trusted_execution ∷ []
degrade_actions HotPathKind.defer_to_task_path =
    DegradeAction.return_ack ∷ DegradeAction.switch_to_task_path ∷ []

-- the `{:?}` of a kind
abbrev kind_name : HotPathKind → String
kind_name HotPathKind.ack = "Ack"
kind_name HotPathKind.early_deny = "EarlyDeny"
kind_name HotPathKind.route = "Route"
kind_name HotPathKind.exact_cache_hit = "ExactCacheHit"
kind_name HotPathKind.template_cache_hit = "TemplateCacheHit"
kind_name HotPathKind.defer_to_task_path = "DeferToTaskPath"
kind_name HotPathKind.defer_to_trusted_execution = "DeferToTrustedExecution"

unfoldable pub degrade_plan : Digests → ℕ → HotPathRequest → HotPathDecision → DegradePlan
degrade_plan d now request decision = record {
  plan_id =
      stable_id d.sha256_hex "degrade_plan"
        (d.plan_json request.request_id decision.decision_id (degrade_actions decision.kind));
  request_id = request.request_id;
  deadline_ms = request.deadline_ms;
  actions = degrade_actions decision.kind;
  reason = concat ("degrade from " ∷ kind_name decision.kind ∷ []);
  evidence_refs = decision.evidence_refs;
  created_at = now;
}

abbrev is_hit : HotPathKind → Bool
is_hit HotPathKind.exact_cache_hit = true
is_hit HotPathKind.template_cache_hit = true
is_hit _ = false

unfoldable pub fact_from_decision : Digests → ℕ → HotPathDecision → HotPathFact
fact_from_decision d now decision = record {
  fact_id = stable_id d.sha256_hex "hotpath_fact" (d.text_json decision.decision_id);
  decision_id = decision.decision_id;
  kind = decision.kind;
  slo_class = decision.slo_class;
  expected_first_packet_ms = decision.expected_first_packet_ms;
  cache_hit = is_hit decision.kind;
  evidence_refs = decision.evidence_refs;
  observed_at = now;
}
