-- ===== src/Release/Canary/Progress.antt =====
-- A rollout that gets its requests comes to its end.
use model_hub.Prelude.{
  ℕ, zero, suc, ◌+◌, ◌≡◌, Result, ok, ◌>>=◌, ◌==◌, arith, length, if◌then◌else◌,
}
use model_hub.Common.Errors.{Exception}
use model_hub.Release.Canary.{
  CanaryConfig, RolloutStatus, CanaryRolloutState, start_rollout, record_canary_request,
  try_advance_stage,
}

-- So many canary requests are recorded one after another.
pub serve : ℕ → CanaryRolloutState → Result Exception CanaryRolloutState
serve zero s = ok s
serve (suc n) s = record_canary_request s >>= λ t. serve n t

-- A stage's requests, and then the question whether to advance.
pub run_stage : CanaryConfig → CanaryRolloutState → Result Exception CanaryRolloutState
run_stage config s = serve config.min_requests_per_stage s >>= λ t. ok (try_advance_stage t config)

pub run_stages : ℕ → CanaryConfig → CanaryRolloutState → Result Exception CanaryRolloutState
run_stages zero config s = ok s
run_stages (suc n) config s = run_stage config s >>= λ t. run_stages n config t

serve-in_progress :
    (n i k : ℕ)
    → serve n (record {
      stage_index = i;
      requests_at_current_stage = k;
      status = RolloutStatus.in_progress;
    })
      ≡ ok (record {
        stage_index = i;
        requests_at_current_stage = k + n;
        status = RolloutStatus.in_progress;
      })
unfolding serve record_canary_request
serve-in_progress zero i k = ground arith
serve-in_progress (suc n) i k = ground (arith, serve-in_progress n i (k + 1))

abbrev at_stage : ℕ → CanaryRolloutState
at_stage i = record {
  stage_index = i;
  requests_at_current_stage = 0;
  status = RolloutStatus.in_progress;
}

abbrev completed_at : CanaryConfig → ℕ → CanaryRolloutState
completed_at config i = record {
  stage_index = i;
  requests_at_current_stage = config.min_requests_per_stage;
  status = RolloutStatus.completed;
}

run_stage-at_stage :
    (config : CanaryConfig) (i : ℕ)
    → run_stage config (at_stage i)
      ≡ ok (if i + 1 == length config.stages then completed_at config i else at_stage (i + 1))
unfolding run_stage try_advance_stage
run_stage-at_stage config i = ground (arith, serve-in_progress config.min_requests_per_stage i 0)

run_stages-at_stage :
    (n i : ℕ) (config : CanaryConfig)
    → i + suc n ≡ length config.stages
    → run_stages (suc n) config (at_stage i) ≡ ok (completed_at config (i + n))
unfolding run_stages
run_stages-at_stage zero i config h = ground (arith, run_stage-at_stage config i)
run_stages-at_stage (suc n) i config h =
    ground (arith, run_stage-at_stage config i, run_stages-at_stage n (i + 1) config)

-- A rollout over some stages that records, at each of them, as many canary requests as the
-- configuration asks for, and then advances, is completed at its last stage after exactly as many
-- rounds as there are stages, and no request is refused on the way.
pub run_stages-completes :
    (config : CanaryConfig) (n : ℕ)
    → suc n ≡ length config.stages
    → run_stages (suc n) config start_rollout ≡ ok (completed_at config n)
unfolding start_rollout
run_stages-completes config n h = ground (arith, run_stages-at_stage n 0 config)
