-- ===== src/Release/Rollback/Verdict.antt =====
-- What the canary's health check decides.
use model_hub.Prelude.{
  ◌*◌, ◌≤◌, ◌<◌, ◌≡◌, refl, ◌≢◌, ◌↔◌, inl, inr, List, [], ◌∷◌, ok, err, length, Bool-cases, ltb,
  arith,
}
use model_hub.Common.Errors.{Exception}
use model_hub.Gate.Types.{GateDecision, GateResult}
use model_hub.Release.Health.{
  CanaryHealthSample, RollbackConfig, CanaryHealthReport, HealthDetail, HealthReason,
  too_few_samples,
}
use model_hub.Release.Rollback.{
  summarize_canary_health, evaluate_canary_health, reasons, judged, health_result,
}

-- A report that is within every threshold.
pub record IsHealthy (config : RollbackConfig) (r : CanaryHealthReport) : Type 0 where
  pub few_errors :
      r.error_rate.num * config.max_error_rate.den ≤ config.max_error_rate.num * r.error_rate.den
  pub few_harness_errors :
      r.harness_error_rate.num * config.max_harness_error_rate.den
      ≤ config.max_harness_error_rate.num * r.harness_error_rate.den
  pub fast : r.latency_p99 ≤ config.max_latency_p99

reasons-IsHealthy :
    (config : RollbackConfig) (r : CanaryHealthReport)
    → (reasons r config ≡ []) ↔ IsHealthy config r
unfolding reasons
reasons-IsHealthy config r = (
  λ h. record { few_errors = ground arith; few_harness_errors = ground arith; fast = ground arith },
  λ h. let a = h.few_errors in let b = h.few_harness_errors in let c = h.fast in ground arith,
)

judged-decision :
    (rs : List HealthReason) (r : CanaryHealthReport)
    → (((judged rs r).decision ≡ GateDecision.pass) ↔ (rs ≡ []))
      × (((judged rs r).decision ≡ GateDecision.reject) ↔ (rs ≢ []))
judged-decision [] r = ((λ h. refl, λ h. refl), (λ h. cc, λ h. absurd (h refl)))
judged-decision (x ∷ xs) r = ((λ h. cc, λ h. cc), (λ h. ground arith, λ h. refl))

-- With fewer samples than the configuration asks for, the check is NOT_APPLICABLE. Otherwise it
-- raises what the summary raises, and on a report it passes a canary within all thresholds and
-- rejects any other.
pub evaluate_canary_health_decides :
    (samples : List CanaryHealthSample) (config : RollbackConfig)
    → ((length samples < config.min_sample_size)
        → (g : GateResult HealthDetail) × (evaluate_canary_health samples config ≡ ok g)
          × (g.decision ≡ GateDecision.not_applicable))
      × ((config.min_sample_size ≤ length samples)
          → ((x : Exception)
              → summarize_canary_health samples ≡ err x
              → evaluate_canary_health samples config ≡ err x)
            × ((r : CanaryHealthReport)
                → summarize_canary_health samples ≡ ok r
                → (g : GateResult HealthDetail) × (evaluate_canary_health samples config ≡ ok g)
                  × ((g.decision ≡ GateDecision.pass) ↔ IsHealthy config r)
                  × ((g.decision ≡ GateDecision.reject) ↔ (¬ IsHealthy config r))))
unfolding evaluate_canary_health
evaluate_canary_health_decides samples config = (
  λ h. few h,
  λ h. (
    λ x e. ground arith,
    λ r e.
        let k = reasons-IsHealthy config r in
        let j = judged-decision (reasons r config) r in
        (
          judged (reasons r config) r,
          rw (e, evaluate_canary_health) (ground arith),
          (λ d. k.0 (j.0.0 d), λ d. j.0.1 (k.1 d)),
          (λ d n. j.1.0 d (k.1 n), λ d. j.1.1 (λ n. d (k.0 n))),
        ),
  ),
)
  where
    few :
        length samples < config.min_sample_size
        → (g : GateResult HealthDetail) × (evaluate_canary_health samples config ≡ ok g)
          × (g.decision ≡ GateDecision.not_applicable)
    few h = elim (Bool-cases (ltb (length samples) config.min_sample_size)) [
      | inl t ↦ (
        health_result GateDecision.not_applicable
            (too_few_samples (length samples) config.min_sample_size),
        rw (t, evaluate_canary_health) refl,
        refl,
      )
      | inr f ↦ absurd (ground arith)
    ]
