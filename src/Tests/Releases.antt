-- ===== src/Tests/Releases.antt =====
-- The registry, the canary's rollout, its health check and a cycle.
use model_hub.Prelude.{
  ℕ, ◌-◌, ◌≤◌, ◌<◌, ◌≡◌, ◌↔◌, refl, Bool, true, false, none, some, List, [], ◌∷◌, String, ok, err,
  arith, str_eq, length, leb, if◌then◌else◌,
}
use model_hub.Prelude.Int.{pos}
use model_hub.Common.Errors.{ErrorCode, Exception, value_error}
use model_hub.Eval.Records.{PredictionRecord, FinishReason}
use model_hub.Gate.Types.{GateDecision, GateResult}
use model_hub.Release.Health.{CanaryHealthSample, RollbackConfig, CanaryHealthReport, HealthDetail}
use model_hub.Release.Registry.{
  ModelStatus, RegistryEntry, ModelRegistry, get, write, mark_deployed, current_deployed,
}
use model_hub.Release.Registry.Lifecycle.{
  RegistryCall, register, judge, deploy, roll_back, AllJudged, run_calls, run_calls-AllJudged,
}
use model_hub.Release.Registry.Deployed.{mark_deployed_twice}
use model_hub.Release.Canary.{
  CanaryConfig, CanaryRolloutState, RolloutStatus, start_rollout, record_canary_request,
  try_advance_stage, model_post_init, is_in_progress,
}
use model_hub.Release.Canary.Stages.{
  IsValidConfig, model_post_init-IsValidConfig, requested, advanced, Reaches, here, next,
}
use model_hub.Release.Canary.Progress.{run_stages, run_stages-completes}
use model_hub.Release.Rollback.{summarize_canary_health, evaluate_canary_health}
use model_hub.Release.Rollback.Verdict.{IsHealthy, evaluate_canary_health_decides}
use model_hub.Release.Sampling.{Draw, DrawsAll}
use model_hub.Release.Orchestrator.{CycleInput, judge_health, run_canary_cycle}
use model_hub.Release.Orchestrator.Cycle.{Outcome, run_canary_cycle_acts}

abbrev entry : String → ModelStatus → RegistryEntry
entry version status = record {
  model_id = "small";
  version = version;
  run_id = "r1";
  status = status;
  registered_at = "2026-01-01";
  gate_results = some [];
  notes = none;
}

abbrev calls : List RegistryCall
calls =
    register "2026-01-01" "small" "v1" "r1"
    ∷ judge "small" "v1" []
    ∷ deploy "small" "v1"
    ∷ roll_back "small" "v1" none
    ∷ []

run_calls-AllJudged_example : AllJudged (run_calls calls [])
run_calls-AllJudged_example = run_calls-AllJudged calls [] tt

abbrev two_versions : ModelRegistry
two_versions = entry "v1" ModelStatus.deployed ∷ entry "v2" ModelStatus.approved ∷ []

get_v1 : get "small" "v1" two_versions ≡ some (entry "v1" ModelStatus.deployed)
unfolding get str_eq
get_v1 = refl

get_v2 : get "small" "v2" two_versions ≡ some (entry "v2" ModelStatus.approved)
unfolding get str_eq
get_v2 = refl

mark_deployed_twice_example :
    let new = record (entry "v2" ModelStatus.approved) { status = ModelStatus.deployed } in
    (mark_deployed "small" "v2" two_versions ≡ ok (new, write new two_versions))
    × (current_deployed "small" (write new two_versions) ≡ err value_error)
mark_deployed_twice_example =
    mark_deployed_twice "small" "v1" "v2" two_versions (entry "v1" ModelStatus.deployed)
      (entry "v2" ModelStatus.approved) (unfold str_eq in refl) get_v1 refl get_v2 refl

abbrev stages : CanaryConfig
stages = record { stages = 5 ∷ 50 ∷ 100 ∷ []; min_requests_per_stage = 1 }

stages-IsValidConfig : IsValidConfig stages
stages-IsValidConfig =
    model_post_init-IsValidConfig stages {c = stages} (unfold model_post_init in refl)

abbrev served_one : CanaryRolloutState
served_one = record {
  stage_index = 0;
  requests_at_current_stage = 1;
  status = RolloutStatus.in_progress;
}

one_request : record_canary_request start_rollout ≡ ok served_one
unfolding record_canary_request start_rollout
one_request = refl

reached : Reaches stages start_rollout (try_advance_stage served_one stages)
reached = next (next here (requested one_request)) (advanced served_one)

abbrev sample : Bool → ℕ → CanaryHealthSample
sample good t = record { succeeded = good; is_harness_error = false; latency = t }

abbrev samples : List CanaryHealthSample
samples = sample true 4 ∷ sample false 9 ∷ sample true 2 ∷ []

abbrev strict : RollbackConfig
strict = record {
  min_sample_size = 2;
  max_error_rate = record { num = 1; den = 10 };
  max_harness_error_rate = record { num = 1; den = 10 };
  max_latency_p99 = 20;
}

evaluate_canary_health_decides_example :
    ((length samples < 2)
      → (g : GateResult HealthDetail) × (evaluate_canary_health samples strict ≡ ok g)
        × (g.decision ≡ GateDecision.not_applicable))
    × ((2 ≤ length samples)
        → ((x : Exception)
            → summarize_canary_health samples ≡ err x
            → evaluate_canary_health samples strict ≡ err x)
          × ((r : CanaryHealthReport)
              → summarize_canary_health samples ≡ ok r
              → (g : GateResult HealthDetail) × (evaluate_canary_health samples strict ≡ ok g)
                × ((g.decision ≡ GateDecision.pass) ↔ IsHealthy strict r)
                × ((g.decision ≡ GateDecision.reject) ↔ (¬ IsHealthy strict r))))
evaluate_canary_health_decides_example = evaluate_canary_health_decides samples strict

abbrev observed : ErrorCode → ℕ → PredictionRecord
observed code t = record {
  sample_id = "a";
  db_id = "school";
  difficulty = none;
  predicted_sql = "select 1";
  finish_reason = FinishReason.stop;
  exec_code = code;
  comparison_result = none;
  undecidable_reason = none;
  elapsed = t;
}

abbrev traffic : List PredictionRecord
traffic =
    observed ErrorCode.exec_ok 4 ∷ observed ErrorCode.syntax 9 ∷ observed ErrorCode.exec_ok 2 ∷ []

-- A generator that draws from the front.
abbrev first_ones : Draw
first_ones seed [] k = []
first_ones seed (p ∷ ps) k = if leb k 0 then [] else p ∷ first_ones seed ps (k - 1)

first_ones-DrawsAll : DrawsAll first_ones
first_ones-DrawsAll seed [] k h = omega arith
first_ones-DrawsAll seed (p ∷ ps) k h = ground (arith, first_ones-DrawsAll seed ps (k - 1))

abbrev cycle_input : CycleInput
cycle_input = record {
  recent_canary_predictions = traffic;
  canary_config = stages;
  rollback_config = strict;
  sample_size = pos 2;
  seed = 7;
  model_id = "small";
  canary_version = "v1";
}

run_canary_cycle_acts_example :
    ((is_in_progress served_one.status ≡ false)
      → run_canary_cycle first_ones served_one cycle_input two_versions ≡ err value_error)
    × ((is_in_progress served_one.status ≡ true)
        → ((x : Exception)
            → judge_health first_ones cycle_input ≡ err x
            → run_canary_cycle first_ones served_one cycle_input two_versions ≡ err x)
          × ((health : GateResult HealthDetail)
              → judge_health first_ones cycle_input ≡ ok health
              → Outcome first_ones served_one cycle_input two_versions health
                  (run_canary_cycle first_ones served_one cycle_input two_versions)))
run_canary_cycle_acts_example = run_canary_cycle_acts first_ones served_one cycle_input two_versions

run_stages-completes_example :
    run_stages 3 stages start_rollout
    ≡ ok (record {
      stage_index = 2;
      requests_at_current_stage = 1;
      status = RolloutStatus.completed;
    })
run_stages-completes_example = run_stages-completes stages 2 refl
