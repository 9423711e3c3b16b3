-- ===== src/Gate/Admission.antt =====
-- gate/admission.py: the five gates run together, in the order of the source.
pub mod Verdict
use model_hub.Prelude.{Option, List, [], ◌∷◌, String, Result, ok, err, ◌>>=◌}
use model_hub.Common.Errors.{ErrorCode, Exception}
use model_hub.Common.Manifest.{RunManifest}
use model_hub.Data.Schema.{NormalizedSample}
use model_hub.Eval.Metrics.{EvalMetrics}
use model_hub.Eval.Records.{PredictionRecord}
use model_hub.Gate.Checks.{
  Checked, AccuracyGateConfig, TruncationGateConfig, SafetyGateConfig, check_accuracy_gate,
  check_truncation_gate, check_pollution_gate, check_safety_gate,
}
use model_hub.Gate.Regression.{RegressionGateConfig, check_regression_gate}

pub record AdmissionGateConfig : Type 0 where
  pub accuracy : AccuracyGateConfig
  pub regression : RegressionGateConfig
  pub safety : SafetyGateConfig
  pub truncation : TruncationGateConfig

-- The arguments of `run_admission_gate` but its configuration.
pub record Candidacy : Type 0 where
  pub manifest : RunManifest
  pub metrics : EvalMetrics
  pub candidate_predictions : List PredictionRecord
  pub baseline_predictions : Option (List PredictionRecord)
  pub adversarial_samples : List NormalizedSample

-- The results of the verdict.
unfoldable pub run_admission_gate :
    (String → String → ErrorCode)
    → Candidacy
    → AdmissionGateConfig
    → Result Exception (List Checked)
run_admission_gate execute c config = do
  safety ← check_safety_gate execute c.adversarial_samples config.safety
  ok (
      check_pollution_gate c.manifest
      ∷ check_accuracy_gate c.metrics config.accuracy
      ∷ check_truncation_gate c.metrics config.truncation
      ∷ safety
      ∷ check_regression_gate c.baseline_predictions c.candidate_predictions config.regression
      ∷ [])
