-- ===== src/Release/Rollback.antt =====
-- release/rollback.py. The report's records are in Health.
--
-- `math.ceil(pct / 100 * n)` is written on whole numbers; for the one percentage that is used, 99,
-- the double-precision value agrees for every n below 10 ^ 6.
pub mod Verdict
pub mod Percentile
use model_hub.Prelude.{
  ℕ, suc, ◌+◌, ◌-◌, ◌*◌, ◌/◌, Bool, true, false, not, Option, none, some, List, [], ◌∷◌, ◌++◌, map,
  String, Result, ok, err, ◌>>=◌, length, get_elem?, ltb, leb, if◌then◌else◌,
}
use model_hub.Prelude.Ratio.{Ratio, ratio, ratio_lt}
use model_hub.Prelude.Counting.{count_if}
use model_hub.Prelude.Sorting.{sorted}
use model_hub.Common.Errors.{Exception, value_error, other_error}
use model_hub.Gate.Types.{GateDecision, GateResult}
use model_hub.Release.Health.{
  CanaryHealthSample, RollbackConfig, CanaryHealthReport, HealthReason, error_rate_over,
  harness_error_rate_over, latency_over, HealthDetail, too_few_samples, degraded, within_thresholds,
}
use model_hub.Release.Registry as registry_module

abbrev pub rank : ℕ → ℕ → ℕ
rank pct n = let r = (pct * n + 99) / 100 in if ltb r 1 then 1 else r

-- `sorted_values[rank - 1]`, with the IndexError past the end.
unfoldable pub percentile : List ℕ → ℕ → Result Exception ℕ
percentile sorted_values pct =
    elim (get_elem? sorted_values (rank pct (length sorted_values) - 1)) [
      | none ↦ err other_error
      | some v ↦ ok v
    ]

abbrev pub latencies : List CanaryHealthSample → List ℕ
latencies samples = sorted (map (λ (s : CanaryHealthSample). s.latency) samples)

abbrev pub failed : CanaryHealthSample → Bool
failed s = not s.succeeded

abbrev pub harness : CanaryHealthSample → Bool
harness s = s.is_harness_error

unfoldable pub summarize_canary_health :
    List CanaryHealthSample → Result Exception CanaryHealthReport
summarize_canary_health samples =
    let n = length samples in
    if leb n 0
    then err value_error
    else percentile (latencies samples) 99 >>= λ p. ok (record {
      sample_size = n;
      error_rate = ratio (count_if failed samples) n;
      harness_error_rate = ratio (count_if harness samples) n;
      latency_p99 = p;
    })

abbrev pub reason_if : Bool → HealthReason → List HealthReason
reason_if true r = r ∷ []
reason_if false r = []

-- `reasons`, in the order in which they are appended.
unfoldable pub reasons : CanaryHealthReport → RollbackConfig → List HealthReason
reasons report config =
    reason_if (ratio_lt config.max_error_rate report.error_rate)
      (error_rate_over report.error_rate config.max_error_rate)
    ++ (reason_if (ratio_lt config.max_harness_error_rate report.harness_error_rate)
          (harness_error_rate_over report.harness_error_rate config.max_harness_error_rate)
        ++ reason_if (ltb config.max_latency_p99 report.latency_p99)
            (latency_over report.latency_p99 config.max_latency_p99))

abbrev pub health_result : GateDecision → HealthDetail → GateResult HealthDetail
health_result decision detail = record {
  gate_name = "canary_health";
  decision = decision;
  detail = detail;
}

abbrev pub judged : List HealthReason → CanaryHealthReport → GateResult HealthDetail
judged [] report = health_result GateDecision.pass (within_thresholds report)
judged (r ∷ rs) report = health_result GateDecision.reject (degraded (r ∷ rs) report)

unfoldable pub evaluate_canary_health :
    List CanaryHealthSample → RollbackConfig → Result Exception (GateResult HealthDetail)
evaluate_canary_health samples config =
    if ltb (length samples) config.min_sample_size
    then ok (
        health_result GateDecision.not_applicable
          (too_few_samples (length samples) config.min_sample_size))
    else summarize_canary_health samples >>= λ report. ok (judged (reasons report config) report)
