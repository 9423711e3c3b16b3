-- ===== src/Eval/Records.antt =====
-- eval/records.py. Elapsed times are whole clock ticks.
use model_hub.Prelude.{ℕ, Bool, true, false, not, ◌||◌, Option, String, if◌then◌else◌}
use model_hub.Common.Errors.{ErrorCode, is_system_error}
use model_hub.Compare.Types.{ComparisonResult, UndecidableReason, is_undecidable}

pub data FinishReason : Type 0 where
  stop length_limit : FinishReason

pub record PredictionRecord : Type 0 where
  pub sample_id : String
  pub db_id : String
  pub difficulty : Option String
  pub predicted_sql : String
  pub finish_reason : FinishReason
  pub exec_code : ErrorCode
  pub comparison_result : Option ComparisonResult
  pub undecidable_reason : Option UndecidableReason
  pub elapsed : ℕ

abbrev is_truncation_code : ErrorCode → Bool
is_truncation_code ErrorCode.output_truncated = true
is_truncation_code _ = false

abbrev pub is_output_truncated : PredictionRecord → Bool
is_output_truncated p = is_truncation_code p.exec_code

abbrev pub is_harness_error : PredictionRecord → Bool
is_harness_error p = is_system_error p.exec_code

unfoldable pub counts_toward_denominator : PredictionRecord → Bool
counts_toward_denominator p =
    if is_output_truncated p || is_harness_error p
    then false
    else not (is_undecidable p.comparison_result)
