-- ===== src/Hotpath/Snapshots.antt =====
-- What a snapshot of moxi-hotpath says of the samples.
use essence_agent.Base.{
  ℕ, ◌*◌, ◌≤◌, ◌<◌, true, false, ◌≡◌, ◌⊎◌, inl, inr, refl, ap, ◌∙◌, some, List, [], ◌∷◌, map, keep,
  leb, length, is_empty, arith, Bool-cases, ◌==◌, subst,
}
use essence_agent.Base.Outcome.Pure.{ok, err}
use essence_agent.Hotpath.Data.{
  SloClass, SloClass-eq, LatencySample, LatencySnapshot, Digests, missing_samples,
}
use essence_agent.Hotpath.Controller.{failed}
use essence_agent.Hotpath.Latency.{
  sort_unstable, last, percentile, values_of, snapshot, snapshot_of,
}
use essence_agent.Hotpath.Percentiles.{
  at_most, below, count-sort, length-sort, sort-IsSorted, IsSorted, IsPercentile, percentile_lem,
}

-- The first packets of the samples of one class.
abbrev pub first_packets : SloClass → List LatencySample → List ℕ
first_packets slo_class samples =
    map (λ sample. sample.first_packet_ms) (keep (λ sample. sample.slo_class == slo_class) samples)

smaller : (a b : ℕ) (xs : List ℕ) → b < a → at_most b xs ≤ below a xs
smaller a b [] h = omega arith
smaller a b (x ∷ xs) h = ground (arith, smaller a b xs h)

all_most : (v : ℕ) (xs : List ℕ) → at_most v xs ≤ length xs
all_most v [] = omega arith
all_most v (x ∷ xs) = ground (arith, all_most v xs)

-- A higher percentage has no lower percentile.
monotone :
    (p q a b : ℕ) (xs : List ℕ)
    → p * length xs ≤ q * length xs
    → IsPercentile p a xs
    → IsPercentile q b xs
    → a ≤ b
monotone p q a b xs h first second = elim (Bool-cases (leb a b)) [
  | inl le ↦ ground (arith, le)
  | inr gt ↦
      let lower = smaller a b xs (ground (arith, gt)) in
      absurd (omega (arith, first.not_before, second.reached, lower, h))
]

greatest :
    (x : ℕ) (xs : List ℕ)
    → IsSorted (x ∷ xs)
    → (m : ℕ) × (last (x ∷ xs) ≡ some m) × (x ≤ m) × (at_most m (x ∷ xs) ≡ length (x ∷ xs))
greatest x [] sorted = (x, refl, omega arith, ground arith)
greatest x (y ∷ ys) ((le, first), sorted) =
    let (m, found, above, all) = greatest y ys sorted in
    (m, found, omega (arith, le, above), ground (arith, all, le, above))

-- Where all values are at most a bound, so is each percentile.
bounded : (p v m : ℕ) (xs : List ℕ) → IsPercentile p v xs → at_most m xs ≡ length xs → v ≤ m
bounded p v m xs at all = elim (Bool-cases (leb v m)) [
  | inl le ↦ ground (arith, le)
  | inr gt ↦
      let lower = smaller v m xs (ground (arith, gt)) in
      absurd (omega (arith, at.is_sample, all_most v xs, lower, all))
]

greatest_of :
    (xs : List ℕ)
    → 1 ≤ length xs
    → (m : ℕ) × (last (sort_unstable xs) ≡ some m) × (at_most m xs ≡ length xs)
greatest_of xs h = cases (sort_unstable xs) refl
  where
    cases :
        (ys : List ℕ)
        → sort_unstable xs ≡ ys
        → (m : ℕ) × (last (sort_unstable xs) ≡ some m) × (at_most m xs ≡ length xs)
    cases [] e = absurd (omega (arith, length-sort xs, ap length e, h))
    cases (y ∷ ys) e =
        let (m, found, _, all) = greatest y ys (subst IsSorted e (sort-IsSorted xs)) in
        (
          m,
          ap last e ∙ found,
          omega (
            arith,
            all,
            ap length e,
            length-sort xs,
            ap (at_most m) e,
            count-sort (λ x. leb x m) xs,
          ),
        )

some_given : (xs : List ℕ) → is_empty xs ≡ false → 1 ≤ length xs
some_given [] h = absurd (ground arith)
some_given (x ∷ xs) h = omega arith

same_empty : (xs : List ℕ) → is_empty (sort_unstable xs) ≡ is_empty xs
same_empty xs = cases xs (sort_unstable xs) (length-sort xs)
  where
    cases : (xs ys : List ℕ) → length ys ≡ length xs → is_empty ys ≡ is_empty xs
    cases [] [] h = refl
    cases [] (y ∷ ys) h = absurd (omega (arith, h))
    cases (x ∷ xs) [] h = absurd (omega (arith, h))
    cases (x ∷ xs) (y ∷ ys) h = refl

-- What a snapshot says of values: three nearest-rank percentiles in order, and the greatest value.
pub record Summarizes (values : List ℕ) (s : LatencySnapshot) : Type 0 where
  pub counts : s.sample_count ≡ length values
  pub p50 : IsPercentile 50 s.p50_first_packet_ms values
  pub p95 : IsPercentile 95 s.p95_first_packet_ms values
  pub p99 : IsPercentile 99 s.p99_first_packet_ms values
  pub all_below_max : at_most s.max_first_packet_ms values ≡ length values
  pub p50_first : s.p50_first_packet_ms ≤ s.p95_first_packet_ms
  pub p95_first : s.p95_first_packet_ms ≤ s.p99_first_packet_ms
  pub p99_first : s.p99_first_packet_ms ≤ s.max_first_packet_ms

module _ (d : Digests) (now : ℕ) (slo_class : SloClass) (samples : List LatencySample) where
  abbrev values : List ℕ
  values = first_packets slo_class samples

  module _ (a b c m : ℕ) where
    raw_snapshot :
        is_empty (values_of slo_class samples) ≡ false
        → percentile (values_of slo_class samples) 50 ≡ some a
        → percentile (values_of slo_class samples) 95 ≡ some b
        → percentile (values_of slo_class samples) 99 ≡ some c
        → last (values_of slo_class samples) ≡ some m
        → snapshot d now slo_class samples
          ≡ ok (snapshot_of d now slo_class (values_of slo_class samples) a b c m)
    unfolding snapshot
    raw_snapshot e p q r t = ground arith

  raw_missing :
      is_empty (values_of slo_class samples) ≡ true
      → snapshot d now slo_class samples ≡ err (failed missing_samples)
  unfolding snapshot
  raw_missing e = ground arith

  -- `snapshot` fails exactly where the class has no sample, and never panics. Otherwise it has the
  -- number of the samples of the class, the nearest-rank percentiles 50, 95 and 99 of their first
  -- packets, in order, and a maximum that none of them exceeds.
  pub snapshot_lem :
      ((is_empty values ≡ true) × (snapshot d now slo_class samples ≡ err (failed missing_samples)))
      ⊎ ((s : LatencySnapshot) × (snapshot d now slo_class samples ≡ ok s)
          × (is_empty values ≡ false)
          × Summarizes values s)
  unfolding values_of
  snapshot_lem = elim (Bool-cases (is_empty values)) [
    | inl none_given ↦ inl (none_given, raw_missing (same_empty values ∙ none_given))
    | inr given ↦
        let enough = some_given values given in
        let (a, p50, at50) = percentile_lem values 50 (omega arith) (omega arith) enough in
        let (b, p95, at95) = percentile_lem values 95 (omega arith) (omega arith) enough in
        let (c, p99, at99) = percentile_lem values 99 (omega arith) (omega arith) enough in
        let (m, found, all) = greatest_of values enough in
        inr (
          snapshot_of d now slo_class (values_of slo_class samples) a b c m,
          raw_snapshot a b c m (same_empty values ∙ given) p50 p95 p99 found,
          given,
          record {
            counts = length-sort values;
            p50 = at50;
            p95 = at95;
            p99 = at99;
            all_below_max = all;
            p50_first = monotone 50 95 a b values (omega arith) at50 at95;
            p95_first = monotone 95 99 b c values (omega arith) at95 at99;
            p99_first = bounded 99 c m values at99 all;
          },
        )
  ]
