-- ===== src/Eval/Metrics.antt =====
-- eval/metrics.py. Rates are exact fractions; `error_breakdown`, a `Counter`, is the function from
-- a code to its count.
pub mod Partition
use model_hub.Prelude.{
  ℕ, ◌*◌, Bool, true, false, ◌&&◌, Option, none, some, List, [], ◌∷◌, map, String, Result, ok, err,
  length, ltb, ◌==◌, if◌then◌else◌, str_eq,
}
use model_hub.Prelude.Ratio.{Ratio, ratio, ratio_lt}
use model_hub.Prelude.Counting.{count_if, filter_if}
use model_hub.Prelude.Grouping.{distinct, sum_of}
use model_hub.Common.Errors.{ErrorCode, ErrorCode-discrete, is_exec_ok}
use model_hub.Compare.Types.{is_equal, is_undecidable}
use model_hub.Eval.Records.{
  PredictionRecord, is_output_truncated, is_harness_error, counts_toward_denominator,
}
use mathlib.Core.Bool.{decide}

-- `HARNESS_ERROR_FLOOD_THRESHOLD`, 0.01
abbrev pub harness_error_flood_threshold : Ratio
harness_error_flood_threshold = record { num = 1; den = 100 }

pub data MetricsError : Type 0 where
  empty_predictions : MetricsError
  harness_error_flood : ℕ → ℕ → (ErrorCode → ℕ) → MetricsError

pub record DifficultySlice : Type 0 where
  pub total : ℕ
  pub denominator : ℕ
  pub equal_count : ℕ
  pub execution_accuracy : Option Ratio

pub record EvalMetrics : Type 0 where
  pub total_samples : ℕ
  pub denominator : ℕ
  pub excluded_output_truncated : ℕ
  pub excluded_undecidable : ℕ
  pub exec_ok_count : ℕ
  pub equal_count : ℕ
  pub execution_accuracy : Option Ratio
  pub syntax_valid_rate : Ratio
  pub error_breakdown : ErrorCode → ℕ
  pub output_truncated_rate : Ratio
  pub undecidable_rate : Ratio
  pub avg_elapsed : Ratio
  pub by_difficulty : List (String × DifficultySlice)
  pub by_db : List (String × DifficultySlice)

abbrev pub has_equal : PredictionRecord → Bool
has_equal p = is_equal p.comparison_result

abbrev pub has_undecidable : PredictionRecord → Bool
has_undecidable p = is_undecidable p.comparison_result

-- `(equal_count / denom) if denom > 0 else None`
abbrev pub accuracy : ℕ → ℕ → Option Ratio
accuracy equal_count denom = if ltb 0 denom then some (ratio equal_count denom) else none

unfoldable pub slice_metrics : List PredictionRecord → DifficultySlice
slice_metrics records =
    let denom_records = filter_if counts_toward_denominator records in
    let equal_count = count_if has_equal denom_records in
    let denom = length denom_records in
    record {
      total = length records;
      denominator = denom;
      equal_count = equal_count;
      execution_accuracy = accuracy equal_count denom;
    }

-- The loop that fills `by_difficulty` or `by_db`.
unfoldable pub slices_by :
    (PredictionRecord → String) → List PredictionRecord → List (String × DifficultySlice)
slices_by key records =
    map (λ k. (k, slice_metrics (filter_if (λ p. str_eq (key p) k) records)))
      (distinct (map key records))

-- `r.difficulty or "unlabeled"`, where an empty text counts as absent
abbrev label_or : Option String → String
label_or none = "unlabeled"
label_or (some d) = if str_eq d "" then "unlabeled" else d

abbrev pub difficulty_label : PredictionRecord → String
difficulty_label p = label_or p.difficulty

abbrev pub has_code : ErrorCode → PredictionRecord → Bool
has_code code p = decide (ErrorCode-discrete p.exec_code code)

unfoldable pub metrics_of : List PredictionRecord → EvalMetrics
unfolding slices_by slice_metrics
metrics_of records =
    let total = length records in
    let denom_records = filter_if counts_toward_denominator records in
    let equal_count = count_if has_equal denom_records in
    let denom = length denom_records in
    let output_truncated_count = count_if is_output_truncated records in
    let undecidable_count = count_if has_undecidable records in
    let exec_ok_count = count_if (λ p. is_exec_ok p.exec_code) records in
    record {
      total_samples = total;
      denominator = denom;
      excluded_output_truncated = output_truncated_count;
      excluded_undecidable = undecidable_count;
      exec_ok_count = exec_ok_count;
      equal_count = equal_count;
      execution_accuracy = accuracy equal_count denom;
      syntax_valid_rate = ratio exec_ok_count total;
      error_breakdown = λ code. count_if (has_code code) records;
      output_truncated_rate = ratio output_truncated_count total;
      undecidable_rate = ratio undecidable_count total;
      avg_elapsed = ratio (sum_of (λ p. p.elapsed) records) total;
      by_difficulty = slices_by difficulty_label records;
      by_db = slices_by (λ p. p.db_id) records;
    }

unfoldable pub compute_metrics : List PredictionRecord → Result MetricsError EvalMetrics
unfolding metrics_of
compute_metrics records =
    let total = length records in
    if total == 0
    then err empty_predictions
    else let harness_count = count_if is_harness_error records in
      if ratio_lt harness_error_flood_threshold (ratio harness_count total)
      then err (
          harness_error_flood harness_count total
            (λ code. count_if (λ p. is_harness_error p && has_code code p) records))
      else ok (metrics_of records)
