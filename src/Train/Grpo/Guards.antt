-- ===== src/Train/Grpo/Guards.antt =====
-- train/grpo/: the guards around a GRPO run. `detect_gdn_kernel_status()` and whether verl is
-- installed are arguments.
use model_hub.Prelude.{
  ℕ, ◌≡◌, ◌↔◌, Bool, not, ◌&&◌, List, [], ◌∷◌, ◌++◌, String, Result, ok, err, ◌>>=◌, ltb, leb,
  if◌then◌else◌, arith,
}
use model_hub.Prelude.Ratio.{Ratio, ratio}
use model_hub.Common.Errors.{Exception, value_error, other_error}
use model_hub.Common.Capability.{CheckStatus, pass, skip, is_available}
use model_hub.Common.Manifest.{KernelStatus}

unfoldable pub guard_rollout_kernel_status : KernelStatus → Result Exception KernelStatus
guard_rollout_kernel_status status = if status.degraded then err value_error else ok status

pub record RolloutTimingBreakdown : Type 0 where
  pub total_rollout_s : ℕ
  pub sql_wait_s : ℕ

-- The checks of `__post_init__`; a time is never negative here.
unfoldable pub timing_post_init : RolloutTimingBreakdown → Result Exception RolloutTimingBreakdown
timing_post_init t =
    if leb t.total_rollout_s 0
    then err value_error
    else if ltb t.total_rollout_s t.sql_wait_s
    then err value_error
    else ok t

unfoldable pub sql_wait_share : RolloutTimingBreakdown → Ratio
sql_wait_share t = ratio t.sql_wait_s t.total_rollout_s

pub record GrpoTrainingConfig : Type 0 where
  pub base_model_name_or_path : String
  pub lora_target_modules : List String
  pub rollout_k : ℕ
  pub rollout_max_concurrency : ℕ
  pub rollout_timeout_s : ℕ
  pub harness_error_abort_threshold : Ratio
  pub seed : ℕ
  pub max_hours : ℕ
  pub output_dir : String

-- The checks of `model_post_init`; a negative value is refused as 0 is.
unfoldable pub model_post_init : GrpoTrainingConfig → Result Exception GrpoTrainingConfig
model_post_init config =
    if leb config.rollout_k 0
    then err value_error
    else if leb config.max_hours 0
    then err value_error
    else ok config

unfoldable pub check_verl_available : Bool → CheckStatus
check_verl_available installed = if installed then pass else skip

unfoldable pub run_grpo_preflight : GrpoTrainingConfig → KernelStatus → Result Exception (Unit {0})
unfolding guard_rollout_kernel_status
run_grpo_preflight config status = guard_rollout_kernel_status status >>= λ s. ok tt

-- Every branch raises: no verl, a degraded kernel, or the part that is not implemented.
unfoldable pub run_grpo_training : GrpoTrainingConfig → Bool → KernelStatus → Exception
unfolding check_verl_available is_available run_grpo_preflight
run_grpo_training config verl_installed status =
    if not (is_available (check_verl_available verl_installed))
    then other_error
    else elim (run_grpo_preflight config status) [ err e ↦ e | ok u ↦ other_error ]

pub record GrpoSmokeCriteria : Type 0 where
  pub peak_memory_ok : Bool
  pub target_steps : ℕ
  pub completed_steps : ℕ
  pub aborted_on_harness_error_flood : Bool

-- The checks of `__post_init__`; the completed steps are never negative here.
unfoldable pub smoke_post_init : GrpoSmokeCriteria → Result Exception GrpoSmokeCriteria
smoke_post_init c = if leb c.target_steps 0 then err value_error else ok c

unfoldable pub pipeline_completed : GrpoSmokeCriteria → Bool
pipeline_completed c = not c.aborted_on_harness_error_flood && leb c.target_steps c.completed_steps

unfoldable pub passed : GrpoSmokeCriteria → Bool
unfolding pipeline_completed
passed c = c.peak_memory_ok && pipeline_completed c

-- The texts of `failure_reasons`.
pub data FailureReason : Type 0 where
  peak_memory : FailureReason
  aborted_on_flood : FailureReason
  steps_missing : ℕ → ℕ → FailureReason

unfoldable pub failure_reasons : GrpoSmokeCriteria → List FailureReason
failure_reasons c =
    (if c.peak_memory_ok then [] else peak_memory ∷ [])
    ++ (if c.aborted_on_harness_error_flood
        then aborted_on_flood ∷ []
        else if ltb c.completed_steps c.target_steps
        then steps_missing c.completed_steps c.target_steps ∷ []
        else [])

unfoldable pub assert_grpo_smoke_passed : GrpoSmokeCriteria → Result Exception (Unit {0})
unfolding passed
assert_grpo_smoke_passed c = if not (passed c) then err value_error else ok tt

-- A smoke test is let through exactly when it has no failure to report.
pub assert_grpo_smoke_passed-failure_reasons :
    (c : GrpoSmokeCriteria) → (assert_grpo_smoke_passed c ≡ ok tt) ↔ (failure_reasons c ≡ [])
unfolding assert_grpo_smoke_passed passed pipeline_completed failure_reasons
assert_grpo_smoke_passed-failure_reasons c = (λ h. ground arith, λ h. ground arith)
