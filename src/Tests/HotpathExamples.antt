-- ===== src/Tests/HotpathExamples.antt =====
-- The hot path on concrete requests and samples.
use essence_agent.Base
use essence_agent.Base.{
  ℕ, ◌≤◌, String, Bool, true, false, ◌≡◌, ◌⊎◌, refl, some, none, List, [], ◌∷◌, is_empty, arith,
  string_eq,
}
use essence_agent.Base.Outcome.Pure.{ok, err}
use essence_agent.Contracts.{RiskLevel}
use essence_agent.Hotpath.Data.{
  HotPathKind, SloClass, CacheKind, CacheSafety, HotPathRequest, CacheEntry, HotPathDecision,
  HotPathController, LatencySample, LatencySnapshot, Digests, missing_samples,
}
use essence_agent.Hotpath.Controller.{failed, new, decision_with, by_cache, decide}
use essence_agent.Hotpath.Latency.{
  budget_of, standard_latency_budgets, percentile, snapshot, sort_unstable,
}
use essence_agent.Hotpath.Percentiles.{IsPercentile, percentile_lem}
use essence_agent.Hotpath.Snapshots.{first_packets, Summarizes, snapshot_lem}
use essence_agent.Hotpath.Decisions.{Grounds, decide_lem}
use essence_agent.Hotpath.Total.{Decides, decide_total}

abbrev digests : Digests
digests = record {
  sha256_hex = λ text. text;
  decision_json = λ request_id kind decision slo_class cache_key. request_id;
  plan_json = λ request_id decision_id actions. decision_id;
  values_json = λ slo_class values. "values";
  text_json = λ text. text;
}

abbrev controller : HotPathController
controller = record { budgets = standard_latency_budgets }

made : new standard_latency_budgets ≡ ok controller
unfolding new
made = refl

abbrev request : HotPathRequest
request = record {
  request_id = "r";
  tenant_id = "t";
  user_id = "u";
  intent_ref = none;
  goal_hash = "g";
  scope_ref = "s";
  risk_level = RiskLevel.medium;
  requested_capabilities = "file.read" ∷ [];
  cache_key = none;
  deadline_ms = 20;
  created_at = 0;
}

abbrev entry : CacheEntry
entry = record {
  cache_key = "k";
  kind = CacheKind.exact;
  safety = CacheSafety.deterministic;
  scope_ref = "s";
  value_hash = "v";
  evidence_refs = [];
  risk_level = RiskLevel.low;
  freshness_ms = 5;
  created_at = 0;
}

abbrev hit : HotPathDecision
hit =
    decision_with digests 1 controller request (by_cache digests 1 controller request entry)
      (budget_of "latency.fifty_ms_cache" SloClass.fifty_ms_cache 50 10 5)

decide_step : decide digests 1 controller request (some entry) ≡ ok hit
unfolding decide string_eq Base.nat_eq essence_agent.Hotpath.Data.CacheSafety-eq
    essence_agent.Hotpath.Data.SloClass-eq
decide_step = refl

decide_lem_example :
    (hit.cannot_execute_tools ≡ true)
    × (hit.cannot_authorize ≡ true)
    × (hit.expected_first_packet_ms ≤ hit.first_packet_budget_ms)
    × Grounds digests 1 controller request (some entry) hit.kind hit.decision hit.selected_cache_key
decide_lem_example = decide_lem digests 1 controller request (some entry) hit decide_step

decide_total_example :
    Decides digests 1 standard_latency_budgets controller request made
      (some entry)
      (decide digests 1 controller request (some entry))
decide_total_example =
    decide_total digests 1 standard_latency_budgets controller request made (some entry)

-- an entry of the semantic kind that needs no review is used, under the kind that defers
abbrev semantic_entry : CacheEntry
semantic_entry = record entry { kind = CacheKind.semantic }

abbrev deferred_hit : HotPathDecision
deferred_hit =
    decision_with digests 1 controller request
      (by_cache digests 1 controller request semantic_entry)
      (budget_of "latency.fifty_ms_cache" SloClass.fifty_ms_cache 50 10 5)

semantic_hit_defers : decide digests 1 controller request (some semantic_entry) ≡ ok deferred_hit
unfolding decide string_eq Base.nat_eq essence_agent.Hotpath.Data.CacheSafety-eq
    essence_agent.Hotpath.Data.SloClass-eq
semantic_hit_defers = refl

abbrev times : List ℕ
times = 9 ∷ 3 ∷ 7 ∷ []

percentile_lem_example :
    (v : ℕ) × (percentile (sort_unstable times) 50 ≡ some v) × IsPercentile 50 v times
percentile_lem_example = percentile_lem times 50 (omega arith) (omega arith) (omega arith)

abbrev sample : ℕ → LatencySample
sample first_packet_ms = record {
  sample_id = "s";
  decision_id = "d";
  slo_class = SloClass.five_ms_ack;
  first_packet_ms = first_packet_ms;
  route_ms = 1;
  cache_lookup_ms = 1;
  queue_wait_ms = 1;
  observed_at = 0;
}

abbrev samples : List LatencySample
samples = sample 4 ∷ sample 2 ∷ []

snapshot_lem_example :
    ((is_empty (first_packets SloClass.five_ms_ack samples) ≡ true)
      × (snapshot digests 1 SloClass.five_ms_ack samples ≡ err (failed missing_samples)))
    ⊎ ((s : LatencySnapshot) × (snapshot digests 1 SloClass.five_ms_ack samples ≡ ok s)
        × (is_empty (first_packets SloClass.five_ms_ack samples) ≡ false)
        × Summarizes (first_packets SloClass.five_ms_ack samples) s)
snapshot_lem_example = snapshot_lem digests 1 SloClass.five_ms_ack samples
