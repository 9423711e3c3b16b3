-- ===== src/Release/Health.antt =====
-- release/rollback.py: the report of a canary's health and what its check says.
use model_hub.Prelude.{ℕ, Bool, List}
use model_hub.Prelude.Ratio.{Ratio}

-- Latencies are whole clock ticks.
pub record CanaryHealthSample : Type 0 where
  pub succeeded : Bool
  pub is_harness_error : Bool
  pub latency : ℕ

pub record RollbackConfig : Type 0 where
  pub min_sample_size : ℕ
  pub max_error_rate : Ratio
  pub max_harness_error_rate : Ratio
  pub max_latency_p99 : ℕ

pub record CanaryHealthReport : Type 0 where
  pub sample_size : ℕ
  pub error_rate : Ratio
  pub harness_error_rate : Ratio
  pub latency_p99 : ℕ

-- One entry of `reasons`.
pub data HealthReason : Type 0 where
  error_rate_over harness_error_rate_over : Ratio → Ratio → HealthReason
  latency_over : ℕ → ℕ → HealthReason

-- What the text and the metrics of a health check's result report.
pub data HealthDetail : Type 0 where
  too_few_samples : ℕ → ℕ → HealthDetail
  degraded : List HealthReason → CanaryHealthReport → HealthDetail
  within_thresholds : CanaryHealthReport → HealthDetail
