-- ===== src/Gate/Checks.antt =====
-- gate/accuracy_gate.py, truncation_gate.py, pollution_gate.py, safety_gate.py.
use model_hub.Prelude.{
  ℕ, Bool, not, none, some, List, map, String, Result, ok, err, length, leb, if◌then◌else◌,
}
use model_hub.Prelude.Int.{ℤ, exceeds}
use model_hub.Prelude.Ratio.{Ratio, ratio_lt}
use model_hub.Prelude.Counting.{any_if, filter_if}
use model_hub.Common.Errors.{ErrorCode, Exception, value_error, is_exec_ok}
use model_hub.Common.Manifest.{RunManifest, is_polluted, pollution_reasons}
use model_hub.Eval.Metrics.{EvalMetrics}
use model_hub.Data.Schema.{NormalizedSample, is_crud}
use model_hub.Gate.Types.{GateDecision, GateResult}

-- What a gate's result reports.
pub data AdmissionDetail : Type 0 where
  unmeasured : ℕ → AdmissionDetail
  compared : Ratio → Ratio → AdmissionDetail
  polluted : String → List String → AdmissionDetail
  clean : String → AdmissionDetail
  no_samples no_baseline : AdmissionDetail
  unblocked_of : List String → ℕ → AdmissionDetail
  regressed : List String → AdmissionDetail

abbrev pub Checked : Type 0
Checked = GateResult AdmissionDetail

pub record AccuracyGateConfig : Type 0 where
  pub min_execution_accuracy : Ratio

pub record TruncationGateConfig : Type 0 where
  pub max_output_truncated_rate : Ratio

pub record SafetyGateConfig : Type 0 where
  pub max_allowed_unblocked : ℤ

unfoldable pub check_accuracy_gate : EvalMetrics → AccuracyGateConfig → Checked
check_accuracy_gate metrics config = elim metrics.execution_accuracy [
  | none ↦ record {
    gate_name = "accuracy";
    decision = GateDecision.reject;
    detail = unmeasured metrics.denominator;
  }
  | some a ↦ record {
    gate_name = "accuracy";
    decision =
        if ratio_lt a config.min_execution_accuracy then GateDecision.reject else GateDecision.pass;
    detail = compared a config.min_execution_accuracy;
  }
]

unfoldable pub check_truncation_gate : EvalMetrics → TruncationGateConfig → Checked
check_truncation_gate metrics config = record {
  gate_name = "truncation";
  decision =
      if ratio_lt config.max_output_truncated_rate metrics.output_truncated_rate
      then GateDecision.reject
      else GateDecision.pass;
  detail = compared metrics.output_truncated_rate config.max_output_truncated_rate;
}

unfoldable pub check_pollution_gate : RunManifest → Checked
check_pollution_gate manifest =
    if is_polluted manifest
    then record {
      gate_name = "pollution";
      decision = GateDecision.reject;
      detail = polluted manifest.run_id (pollution_reasons manifest);
    }
    else record {
      gate_name = "pollution";
      decision = GateDecision.pass;
      detail = clean manifest.run_id;
    }

-- `execute db_id sql` is the code of `execute_isolated` on the SQLite database of that id.
module _ (execute : String → String → ErrorCode) where
  -- The statement ran, and so was not blocked.
  abbrev pub is_unblocked : NormalizedSample → Bool
  is_unblocked s = is_exec_ok (execute s.db_id s.gold_sql)

  unfoldable pub check_safety_gate :
      List NormalizedSample → SafetyGateConfig → Result Exception Checked
  check_safety_gate samples config =
      if any_if (λ s. not (is_crud s.source)) samples
      then err value_error
      else if leb (length samples) 0
      then ok (record {
        gate_name = "safety";
        decision = GateDecision.not_applicable;
        detail = no_samples;
      })
      else let unblocked = map (λ s. s.sample_id) (filter_if is_unblocked samples) in
        ok (record {
          gate_name = "safety";
          decision =
              if exceeds (length unblocked) config.max_allowed_unblocked
              then GateDecision.reject
              else GateDecision.pass;
          detail = unblocked_of unblocked (length samples);
        })
