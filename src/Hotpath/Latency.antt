-- ===== src/Hotpath/Latency.antt =====
-- `snapshot`, `percentile` and the standard budgets of crates/moxi-hotpath/src/lib.rs. A sample's
-- times are u64 and the counts usize; none of them wraps below 2^57 samples.
use essence_agent.Base.{
  ℕ, zero, suc, ◌+◌, ◌-◌, ◌*◌, ◌/◌, min, max, String, Option, none, some, List, [], ◌∷◌, map,
  if◌then◌else◌, is_empty, keep, length, ◌==◌, leb,
}
use essence_agent.Base.Outcome.Pure.{Result, ok, err, ◌>>=◌}
use essence_agent.Platform.{stable_id}
use essence_agent.Hotpath.Data.{
  SloClass, SloClass-eq, LatencyBudget, LatencySample, LatencySnapshot, Digests, missing_samples,
}
use essence_agent.Hotpath.Controller.{Failure, failed, panic}

abbrev pub place : ℕ → List ℕ → List ℕ
place x [] = x ∷ []
place x (y ∷ ys) = if leb x y then x ∷ y ∷ ys else y ∷ place x ys

-- `<[u64]>::sort_unstable`: equal numbers are the same, so that there is one order
unfoldable pub sort_unstable : List ℕ → List ℕ
sort_unstable [] = []
sort_unstable (x ∷ xs) = place x (sort_unstable xs)

-- `values[i]`: none where it panics
abbrev pub element : List ℕ → ℕ → Option ℕ
element [] i = none
element (x ∷ xs) zero = some x
element (x ∷ xs) (suc i) = element xs i

-- `values.last()`
abbrev pub last : List ℕ → Option ℕ
last [] = none
last (x ∷ []) = some x
last (x ∷ rest) = last rest

unfoldable pub div_ceil : ℕ → ℕ → ℕ
div_ceil a b = (a + (b - 1)) / b

-- `(values.len() * percentile).div_ceil(100).max(1)`
abbrev pub rank_of : ℕ → ℕ → ℕ
rank_of count percent = max (div_ceil (count * percent) 100) 1

unfoldable pub percentile : List ℕ → ℕ → Option ℕ
percentile values percent =
    element values (min (rank_of (length values) percent - 1) (length values - 1))

abbrev pub or_panic : Option ℕ → Result Failure ℕ
or_panic (some value) = ok value
or_panic none = err panic

-- the first packets of the samples of one class, in order
unfoldable pub values_of : SloClass → List LatencySample → List ℕ
unfolding sort_unstable
values_of slo_class samples = sort_unstable (
    map (λ sample. sample.first_packet_ms) (keep (λ sample. sample.slo_class == slo_class) samples))

abbrev pub snapshot_of : Digests → ℕ → SloClass → List ℕ → ℕ → ℕ → ℕ → ℕ → LatencySnapshot
snapshot_of d now slo_class values p50 p95 p99 greatest = record {
  snapshot_id = stable_id d.sha256_hex "latency_snapshot" (d.values_json slo_class values);
  slo_class = slo_class;
  sample_count = length values;
  p50_first_packet_ms = p50;
  p95_first_packet_ms = p95;
  p99_first_packet_ms = p99;
  max_first_packet_ms = greatest;
  generated_at = now;
}

unfoldable pub snapshot :
    Digests → ℕ → SloClass → List LatencySample → Result Failure LatencySnapshot
unfolding values_of percentile
snapshot d now slo_class samples =
    let values = values_of slo_class samples in
    if is_empty values then err (failed missing_samples) else (do
      p50 ← or_panic (percentile values 50)
      p95 ← or_panic (percentile values 95)
      p99 ← or_panic (percentile values 99)
      greatest ← or_panic (last values)
      ok (snapshot_of d now slo_class values p50 p95 p99 greatest))

abbrev pub budget_of : String → SloClass → ℕ → ℕ → ℕ → LatencyBudget
budget_of budget_id slo_class first_packet route queue_wait = record {
  budget_id = budget_id;
  slo_class = slo_class;
  max_first_packet_ms = first_packet;
  max_route_ms = route;
  max_cache_lookup_ms = 50;
  max_queue_wait_ms = queue_wait;
  require_status_stream_after_ms = 3_000;
  require_stage_progress_after_ms = 10_000;
}

-- `LatencyBudget::default`
abbrev pub default_latency_budget : LatencyBudget
default_latency_budget = budget_of "latency.five_ms_ack" SloClass.five_ms_ack 5 10 5

abbrev pub standard_latency_budgets : List LatencyBudget
standard_latency_budgets =
    default_latency_budget
    ∷ budget_of "latency.ten_ms_route" SloClass.ten_ms_route 10 10 5
    ∷ budget_of "latency.fifty_ms_cache" SloClass.fifty_ms_cache 50 10 5
    ∷ budget_of "latency.first_status" SloClass.two_hundred_ms_first_status 200 50 50
    ∷ budget_of "latency.task_path" SloClass.task_path 200 100 100
    ∷ budget_of "latency.trusted_execution" SloClass.trusted_execution_path 200 100 100
    ∷ []
