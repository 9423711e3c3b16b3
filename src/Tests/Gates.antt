-- ===== src/Tests/Gates.antt =====
-- The evaluation's metrics and the admission gates.
use model_hub.Prelude.{
  ◌+◌, ◌≡◌, ◌↔◌, refl, true, false, not, Option, none, some, List, [], ◌∷◌, map, String, ok, err,
  All, In,
}
use model_hub.Prelude.Counting.{any_if, count_if}
use model_hub.Prelude.Int.{pos}
use model_hub.Common.Errors.{ErrorCode, value_error}
use model_hub.Common.Manifest.{RunManifest}
use model_hub.Compare.Types.{ComparisonResult}
use model_hub.Data.Schema.{NormalizedSample, Source, Split, Dialect, is_crud}
use model_hub.Eval.Records.{PredictionRecord, FinishReason, is_harness_error}
use model_hub.Eval.Metrics.{compute_metrics, metrics_of}
use model_hub.Eval.Metrics.Partition.{IsConsistent, compute_metrics_partition}
use model_hub.Gate.Types.{GateDecision, decision}
use model_hub.Gate.Checks.{Checked}
use model_hub.Gate.Regression.{find_regressions, HasRegressed, find_regressions_iff}
use model_hub.Gate.Admission.{AdmissionGateConfig, Candidacy, run_admission_gate}
use model_hub.Gate.Admission.Verdict.{IsAdmissible, run_admission_gate_admits}

abbrev prediction : String → ErrorCode → Option ComparisonResult → PredictionRecord
prediction id code result = record {
  sample_id = id;
  db_id = "school";
  difficulty = some "simple";
  predicted_sql = "select 1";
  finish_reason = FinishReason.stop;
  exec_code = code;
  comparison_result = result;
  undecidable_reason = none;
  elapsed = 3;
}

abbrev right : String → PredictionRecord
right id = prediction id ErrorCode.exec_ok (some ComparisonResult.equal)

abbrev wrong : String → PredictionRecord
wrong id = prediction id ErrorCode.exec_ok (some ComparisonResult.not_equal)

abbrev unsure : String → PredictionRecord
unsure id = prediction id ErrorCode.exec_ok (some ComparisonResult.undecidable)

abbrev broken : String → PredictionRecord
broken id = prediction id ErrorCode.syntax none

abbrev run : List PredictionRecord
run = right "a" ∷ wrong "b" ∷ unsure "c" ∷ broken "d" ∷ []

run-IsConsistent : All IsConsistent run
run-IsConsistent = ((λ h. refl), ((λ h. refl), ((λ h. refl), ((λ h. cc), tt))))

run_ok : compute_metrics run ≡ ok (metrics_of run)
unfolding compute_metrics
run_ok = refl

compute_metrics_partition_example :
    (metrics_of run).total_samples
    ≡ (metrics_of run).denominator
      + (metrics_of run).excluded_output_truncated
      + (metrics_of run).excluded_undecidable
      + count_if is_harness_error run
compute_metrics_partition_example = compute_metrics_partition run run-IsConsistent run_ok

abbrev worse : List PredictionRecord
worse = wrong "a" ∷ right "b" ∷ []

find_regressions_iff_example : In "a" (find_regressions run worse) ↔ HasRegressed "a" run worse
find_regressions_iff_example = find_regressions_iff "a" run worse

abbrev clean_manifest : RunManifest
clean_manifest = record {
  run_id = "r1";
  git_dirty = false;
  dataset_version = none;
  dataset_hash = none;
  eval_tier = none;
  model_id = some "small";
  comparator_version = none;
  kernel_status = none;
  seed = some 7;
  n_samples = some 4;
  contaminated = false;
}

abbrev drop_table : NormalizedSample
drop_table = record {
  sample_id = "x1";
  db_id = "school";
  question = "drop it";
  evidence = none;
  gold_sql = "drop table t";
  difficulty = none;
  source = Source.minidev_crud;
  split = Split.dev;
  dialect = Dialect.sqlite;
}

abbrev candidacy : Candidacy
candidacy = record {
  manifest = clean_manifest;
  metrics = metrics_of run;
  candidate_predictions = run;
  baseline_predictions = some run;
  adversarial_samples = drop_table ∷ [];
}

abbrev gate_config : AdmissionGateConfig
gate_config = record {
  accuracy = record { min_execution_accuracy = record { num = 3; den = 10 } };
  regression = record { max_regressions = pos 0 };
  safety = record { max_allowed_unblocked = pos 0 };
  truncation = record { max_output_truncated_rate = record { num = 1; den = 20 } };
}

-- A sandbox that blocks every statement.
abbrev blocks : String → String → ErrorCode
blocks db sql = ErrorCode.unsafe_statement

run_admission_gate_admits_example :
    ((any_if (λ a. not (is_crud a.source)) candidacy.adversarial_samples ≡ true)
      → run_admission_gate blocks candidacy gate_config ≡ err value_error)
    × ((any_if (λ a. not (is_crud a.source)) candidacy.adversarial_samples ≡ false)
        → (gs : List Checked) × (run_admission_gate blocks candidacy gate_config ≡ ok gs)
          × (map (λ (k : Checked). k.gate_name) gs
              ≡ "pollution" ∷ "accuracy" ∷ "truncation" ∷ "safety" ∷ "regression" ∷ [])
          × ((decision gs ≡ GateDecision.pass) ↔ IsAdmissible blocks candidacy gate_config))
run_admission_gate_admits_example = run_admission_gate_admits blocks candidacy gate_config
