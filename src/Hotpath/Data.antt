-- ===== src/Hotpath/Data.antt =====
-- The data of crates/moxi-hotpath/src/lib.rs. An instant is a number of milliseconds.
use essence_agent.Base.{ℕ, String, Bool, Option, List, Eq}
use essence_agent.Contracts.{Decision, RiskLevel}

pub data HotPathError : Type 0 where
  missing_slo_class cache_scope_mismatch cache_stale cache_risk_too_high missing_samples :
      HotPathError

pub data HotPathKind : Type 0 where
  ack early_deny route exact_cache_hit template_cache_hit defer_to_task_path
        defer_to_trusted_execution :
      HotPathKind

pub data SloClass : Type 0 where
  five_ms_ack ten_ms_route fifty_ms_cache two_hundred_ms_first_status task_path
        trusted_execution_path :
      SloClass

pub data CacheKind : Type 0 where
  exact template semantic : CacheKind

pub data CacheSafety : Type 0 where
  deterministic scoped_template semantic_needs_review : CacheSafety

pub data DegradeAction : Type 0 where
  return_ack return_cached_status ask_clarifying_question switch_to_task_path
        switch_to_trusted_execution deny :
      DegradeAction

unfoldable pub SloClass-discrete : Discrete SloClass
SloClass-discrete = hlevel

unfoldable pub HotPathKind-discrete : Discrete HotPathKind
HotPathKind-discrete = hlevel

unfoldable pub CacheSafety-discrete : Discrete CacheSafety
CacheSafety-discrete = hlevel

instance unfoldable pub SloClass-eq : Eq SloClass
unfolding SloClass-discrete
SloClass-eq = record { dec = SloClass-discrete }

instance unfoldable pub HotPathKind-eq : Eq HotPathKind
unfolding HotPathKind-discrete
HotPathKind-eq = record { dec = HotPathKind-discrete }

instance unfoldable pub CacheSafety-eq : Eq CacheSafety
unfolding CacheSafety-discrete
CacheSafety-eq = record { dec = CacheSafety-discrete }

pub record LatencyBudget : Type 0 where
  pub budget_id : String
  pub slo_class : SloClass
  pub max_first_packet_ms : ℕ
  pub max_route_ms : ℕ
  pub max_cache_lookup_ms : ℕ
  pub max_queue_wait_ms : ℕ
  pub require_status_stream_after_ms : ℕ
  pub require_stage_progress_after_ms : ℕ

pub record HotPathRequest : Type 0 where
  pub request_id : String
  pub tenant_id : String
  pub user_id : String
  pub intent_ref : Option String
  pub goal_hash : String
  pub scope_ref : String
  pub risk_level : RiskLevel
  pub requested_capabilities : List String
  pub cache_key : Option String
  pub deadline_ms : ℕ
  pub created_at : ℕ

pub record CacheEntry : Type 0 where
  pub cache_key : String
  pub kind : CacheKind
  pub safety : CacheSafety
  pub scope_ref : String
  pub value_hash : String
  pub evidence_refs : List String
  pub risk_level : RiskLevel
  pub freshness_ms : ℕ
  pub created_at : ℕ

pub record HotPathDecision : Type 0 where
  pub decision_id : String
  pub request_id : String
  pub kind : HotPathKind
  pub decision : Decision
  pub slo_class : SloClass
  pub first_packet_budget_ms : ℕ
  pub expected_first_packet_ms : ℕ
  pub selected_cache_key : Option String
  pub route_ref : Option String
  pub degrade_plan_ref : Option String
  pub evidence_refs : List String
  pub reasons : List String
  pub cannot_execute_tools : Bool
  pub cannot_authorize : Bool
  pub created_at : ℕ

pub record DegradePlan : Type 0 where
  pub plan_id : String
  pub request_id : String
  pub deadline_ms : ℕ
  pub actions : List DegradeAction
  pub reason : String
  pub evidence_refs : List String
  pub created_at : ℕ

pub record LatencySample : Type 0 where
  pub sample_id : String
  pub decision_id : String
  pub slo_class : SloClass
  pub first_packet_ms : ℕ
  pub route_ms : ℕ
  pub cache_lookup_ms : ℕ
  pub queue_wait_ms : ℕ
  pub observed_at : ℕ

pub record LatencySnapshot : Type 0 where
  pub snapshot_id : String
  pub slo_class : SloClass
  pub sample_count : ℕ
  pub p50_first_packet_ms : ℕ
  pub p95_first_packet_ms : ℕ
  pub p99_first_packet_ms : ℕ
  pub max_first_packet_ms : ℕ
  pub generated_at : ℕ

pub record HotPathFact : Type 0 where
  pub fact_id : String
  pub decision_id : String
  pub kind : HotPathKind
  pub slo_class : SloClass
  pub expected_first_packet_ms : ℕ
  pub cache_hit : Bool
  pub evidence_refs : List String
  pub observed_at : ℕ

pub record HotDecisionParts : Type 0 where
  pub kind : HotPathKind
  pub decision : Decision
  pub slo_class : SloClass
  pub selected_cache_key : Option String
  pub reasons : List String
  pub evidence_refs : List String

pub record HotPathController : Type 0 where
  pub budgets : List LatencyBudget

-- sha2, and serde_json for each type that an id is made from
pub record Digests : Type 0 where
  -- `hex::encode(Sha256::digest(bytes))`
  pub sha256_hex : String → String
  pub decision_json : String → HotPathKind → Decision → SloClass → Option String → String
  pub plan_json : String → String → List DegradeAction → String
  pub values_json : SloClass → List ℕ → String
  pub text_json : String → String
