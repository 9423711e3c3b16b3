-- ===== src/Train/Grpo/Steps.antt =====
-- train/grpo/step_diagnostics.py. Rates are exact fractions; the histogram is the function from an
-- exec code to its count.
use model_hub.Prelude.{
  ℕ, ◌+◌, ◌*◌, ◌≤◌, ◌<◌, ◌≡◌, ◌↔◌, Bool, true, false, List, [], ◌∷◌, Result, ok, err, ◌>>=◌, length,
  leb, ◌==◌, if◌then◌else◌, arith,
}
use model_hub.Prelude.Counting.{count_if, count_if-le}
use model_hub.Prelude.Ratio.{Ratio, ratio, ratio_lt}
use model_hub.Common.Errors.{ErrorCode, Exception, value_error}
use model_hub.Eval.Records.{PredictionRecord, is_output_truncated, is_harness_error}
use model_hub.Eval.Metrics.{harness_error_flood_threshold, has_code}
use model_hub.Train.Dpo.{is_unclassified}
use model_hub.Train.Grpo.{GroupDiagnostics}

pub record StepDiagnostics : Type 0 where
  pub step : ℕ
  pub total_rollouts : ℕ
  pub harness_error_count : ℕ
  pub timeout_count : ℕ
  pub truncated_count : ℕ
  pub unclassified_count : ℕ
  pub reward_histogram : ErrorCode → ℕ
  pub degenerate_group_count : ℕ
  pub total_group_count : ℕ

-- The checks of `__post_init__`.
unfoldable pub step_post_init : StepDiagnostics → Result Exception StepDiagnostics
step_post_init d =
    if leb d.total_rollouts 0
    then err value_error
    else if leb d.total_group_count 0
    then err value_error
    else ok d

abbrev pub is_timeout : ErrorCode → Bool
is_timeout ErrorCode.timeout = true
is_timeout _ = false

unfoldable pub harness_error_rate : StepDiagnostics → Ratio
harness_error_rate d = ratio d.harness_error_count d.total_rollouts

unfoldable pub timeout_rate : StepDiagnostics → Ratio
timeout_rate d = ratio d.timeout_count d.total_rollouts

unfoldable pub truncated_rate : StepDiagnostics → Ratio
truncated_rate d = ratio d.truncated_count d.total_rollouts

unfoldable pub unclassified_rate : StepDiagnostics → Ratio
unclassified_rate d = ratio d.unclassified_count d.total_rollouts

unfoldable pub degenerate_group_rate : StepDiagnostics → Ratio
degenerate_group_rate d = ratio d.degenerate_group_count d.total_group_count

unfoldable pub compute_step_diagnostics :
    ℕ → List PredictionRecord → List GroupDiagnostics → Result Exception StepDiagnostics
unfolding step_post_init
compute_step_diagnostics step predictions group_diagnostics =
    if length predictions == 0
    then err value_error
    else if length group_diagnostics == 0
    then err value_error
    else step_post_init (record {
      step = step;
      total_rollouts = length predictions;
      harness_error_count = count_if is_harness_error predictions;
      timeout_count = count_if (λ p. is_timeout p.exec_code) predictions;
      truncated_count = count_if is_output_truncated predictions;
      unclassified_count = count_if (λ p. is_unclassified p.exec_code) predictions;
      reward_histogram = λ code. count_if (has_code code) predictions;
      degenerate_group_count = count_if (λ g. g.is_degenerate) group_diagnostics;
      total_group_count = length group_diagnostics;
    })

unfoldable pub assert_harness_error_rate_ok : StepDiagnostics → Ratio → Result Exception (Unit {0})
unfolding harness_error_rate
assert_harness_error_rate_ok d threshold =
    if ratio_lt threshold (harness_error_rate d) then err value_error else ok tt

unfoldable pub assert_unclassified_rate_ok : StepDiagnostics → Ratio → Result Exception (Unit {0})
unfolding unclassified_rate
assert_unclassified_rate_ok d threshold =
    if ratio_lt threshold (unclassified_rate d) then err value_error else ok tt

code_counts :
    (ps : List PredictionRecord)
    → count_if is_harness_error ps
        + count_if (λ p. is_timeout p.exec_code) ps
        + count_if is_output_truncated ps
        + count_if (λ p. is_unclassified p.exec_code) ps
      ≤ length ps
code_counts [] = omega arith
code_counts (p ∷ ps) = let ih = code_counts ps in ground arith

-- A step with predictions and groups gets diagnostics, whose harness errors, timeouts, truncated
-- and unclassified rollouts are at most its rollouts together, and whose degenerate groups are at
-- most its groups; training goes on past the two guards exactly when at most one rollout in a
-- hundred is a harness error and at most one in a hundred is UNCLASSIFIED.
pub step_guards :
    (step : ℕ) (ps : List PredictionRecord) (gs : List GroupDiagnostics)
    → 0 < length ps
    → 0 < length gs
    → (d : StepDiagnostics) × (compute_step_diagnostics step ps gs ≡ ok d)
      × (d.harness_error_count + d.timeout_count + d.truncated_count + d.unclassified_count
          ≤ d.total_rollouts)
      × (d.degenerate_group_count ≤ d.total_group_count)
      × (((assert_harness_error_rate_ok d harness_error_flood_threshold >>= λ u.
              assert_unclassified_rate_ok d harness_error_flood_threshold)
            ≡ ok tt)
          ↔ ((count_if is_harness_error ps * 100 ≤ length ps)
              × (count_if (λ p. is_unclassified p.exec_code) ps * 100 ≤ length ps)))
unfolding compute_step_diagnostics step_post_init assert_harness_error_rate_ok harness_error_rate
    assert_unclassified_rate_ok unclassified_rate
step_guards step ps gs h k = (
  record {
    step = step;
    total_rollouts = length ps;
    harness_error_count = count_if is_harness_error ps;
    timeout_count = count_if (λ p. is_timeout p.exec_code) ps;
    truncated_count = count_if is_output_truncated ps;
    unclassified_count = count_if (λ p. is_unclassified p.exec_code) ps;
    reward_histogram = λ code. count_if (has_code code) ps;
    degenerate_group_count = count_if (λ g. g.is_degenerate) gs;
    total_group_count = length gs;
  },
  ground arith,
  code_counts ps,
  count_if-le (λ g. g.is_degenerate) gs,
  (λ e. ground arith, λ e. ground arith),
)
