-- ===== src/Release/Rollback/Percentile.antt =====
-- The nearest-rank percentile of the canary's latencies.
use model_hub.Prelude.{
  ℕ, ◌-◌, ◌*◌, ◌≤◌, ◌<◌, ◌≡◌, refl, Bool, some, List, [], ◌∷◌, map, ok, err, length, length-map,
  get_elem?, get_elem?_total, ltb, arith,
}
use model_hub.Prelude.Ratio.{ratio}
use model_hub.Prelude.Counting.{count_if}
use model_hub.Prelude.Sorting.{sorted-IsAscending, length-sorted, count_if-sorted, get_elem?-rank}
use model_hub.Common.Errors.{value_error}
use model_hub.Release.Health.{CanaryHealthSample, CanaryHealthReport}
use model_hub.Release.Rollback.{
  rank, percentile, latencies, failed, harness, summarize_canary_health,
}

count_if-map :
    (p : ℕ → Bool) (samples : List CanaryHealthSample)
    → count_if p (map (λ (s : CanaryHealthSample). s.latency) samples)
      ≡ count_if (λ s. p s.latency) samples
count_if-map p [] = refl
count_if-map p (s ∷ ss) = ground (arith, count_if-map p ss)

count_if-latencies :
    (p : ℕ → Bool) (samples : List CanaryHealthSample)
    → count_if p (latencies samples) ≡ count_if (λ s. p s.latency) samples
count_if-latencies p samples =
    rw (count_if-sorted p (map (λ (s : CanaryHealthSample). s.latency) samples))
      (count_if-map p samples)

length-latencies : (samples : List CanaryHealthSample) → length (latencies samples) ≡ length samples
length-latencies samples =
    rw (length-sorted (map (λ (s : CanaryHealthSample). s.latency) samples))
      (length-map (λ (s : CanaryHealthSample). s.latency) samples)

rank_bounds :
    (n : ℕ)
    → 0 < n
    → (rank 99 n - 1 < n)
      × (100 * (rank 99 n - 1) < 99 * n)
      × (99 * n ≤ 100 * rank 99 n)
      × (1 ≤ rank 99 n)
rank_bounds n h = ground arith

-- The report of a canary with samples counts them all, the failed ones and the harness errors, and
-- its latency is the nearest-rank 99th percentile: no more than one sample in a hundred is slower,
-- and fewer than 99 in a hundred are faster. Without samples there is a ValueError.
pub summarize_canary_health_reports :
    (samples : List CanaryHealthSample)
    → ((length samples ≡ 0) → summarize_canary_health samples ≡ err value_error)
      × ((0 < length samples)
          → (r : CanaryHealthReport) × (summarize_canary_health samples ≡ ok r)
            × (r.sample_size ≡ length samples)
            × (r.error_rate ≡ ratio (count_if failed samples) (length samples))
            × (r.harness_error_rate ≡ ratio (count_if harness samples) (length samples))
            × (100 * count_if (λ s. ltb r.latency_p99 s.latency) samples ≤ length samples)
            × (100 * count_if (λ s. ltb s.latency r.latency_p99) samples < 99 * length samples))
unfolding summarize_canary_health percentile
summarize_canary_health_reports samples = (
  λ h. ground arith,
  λ h.
      let bounds = rank_bounds (length samples) h in
      let len = length-latencies samples in
      let (p, e) =
        get_elem?_total (latencies samples) (rank 99 (length samples) - 1) (rw len bounds.0) in
      let place =
        get_elem?-rank (latencies samples) (rank 99 (length samples) - 1) p (sorted-IsAscending _)
          e in
      let below = count_if-latencies (λ x. ltb x p) samples in
      let above = count_if-latencies (λ x. ltb p x) samples in
      (_, reported samples p h (rw len e), refl, refl, refl, omega arith, omega arith),
)
  where
    reported :
        (samples : List CanaryHealthSample) (p : ℕ)
        → 0 < length samples
        → get_elem? (latencies samples) (rank 99 (length (latencies samples)) - 1) ≡ some p
        → summarize_canary_health samples
          ≡ ok (record {
            sample_size = length samples;
            error_rate = ratio (count_if failed samples) (length samples);
            harness_error_rate = ratio (count_if harness samples) (length samples);
            latency_p99 = p;
          })
    reported samples p h e = ground arith
