-- ===== src/Release/Orchestrator.antt =====
-- release/orchestrator.py. The registry is passed through, since a rejected canary is rolled back
-- in it; an exception leaves it as it was.
pub mod Cycle
use model_hub.Prelude.{
  ℕ, Bool, true, false, not, Option, none, some, List, String, Result, ok, err, ◌>>=◌, ◌>>◌,
  raise_if, ◌==◌, if◌then◌else◌,
}
use model_hub.Prelude.Int.{ℤ}
use model_hub.Common.Errors.{Exception, value_error}
use model_hub.Eval.Records.{PredictionRecord}
use model_hub.Gate.Types.{GateDecision, GateResult}
use model_hub.Release.Health.{RollbackConfig, HealthDetail}
use model_hub.Release.Registry.{
  ModelRegistry, RegistryEntry, Written, mark_rolled_back as roll_back_entry,
}
use model_hub.Release.Canary.{
  CanaryConfig, CanaryRolloutState, RolloutStatus, is_in_progress, try_advance_stage,
  mark_rolled_back,
}
use model_hub.Release.Rollback.{evaluate_canary_health}
use model_hub.Release.Sampling.{Draw, sample_recent_predictions, predictions_to_health_samples}

pub data CycleAction : Type 0 where
  continue advanced completed rolled_back : CycleAction

pub record CanaryCycleResult : Type 0 where
  pub action : CycleAction
  pub state : CanaryRolloutState
  pub health : GateResult HealthDetail

-- What a cycle is given besides the state and the registry.
pub record CycleInput : Type 0 where
  pub recent_canary_predictions : List PredictionRecord
  pub canary_config : CanaryConfig
  pub rollback_config : RollbackConfig
  pub sample_size : ℤ
  pub seed : ℕ
  pub model_id : String
  pub canary_version : String

-- release/rollback.py's function, whose reason is the health check's detail
unfoldable pub trigger_rollback : ModelRegistry → String → String → HealthDetail → Written
trigger_rollback registry model_id canary_version reason =
    roll_back_entry model_id canary_version (some reason) registry

abbrev pub is_completed : RolloutStatus → Bool
is_completed RolloutStatus.completed = true
is_completed _ = false

abbrev pub action_of : CanaryRolloutState → CanaryRolloutState → CycleAction
action_of state advanced_state =
    if is_completed advanced_state.status
    then CycleAction.completed
    else if not (advanced_state.stage_index == state.stage_index)
    then CycleAction.advanced
    else CycleAction.continue

abbrev pub Cycled : Type 0
Cycled = Result Exception (CanaryCycleResult × ModelRegistry)

-- What follows the health check.
unfoldable pub act_on :
    CanaryRolloutState → CycleInput → ModelRegistry → GateResult HealthDetail → Cycled
act_on state input registry health = elim health.decision [
  | GateDecision.reject ↦
      trigger_rollback registry input.model_id input.canary_version health.detail >>= λ w. ok (
        record {
          action = CycleAction.rolled_back;
          state = mark_rolled_back state;
          health = health;
        },
        w.1,
      )
  | GateDecision.not_applicable ↦
      ok (record { action = CycleAction.continue; state = state; health = health }, registry)
  | GateDecision.pass ↦
      let advanced_state = try_advance_stage state input.canary_config in
      ok (
        record { action = action_of state advanced_state; state = advanced_state; health = health },
        registry,
      )
]

unfoldable pub judge_health : Draw → CycleInput → Result Exception (GateResult HealthDetail)
judge_health draw input =
    sample_recent_predictions draw input.recent_canary_predictions input.sample_size input.seed
    >>= λ sampled.
        evaluate_canary_health (predictions_to_health_samples sampled) input.rollback_config

unfoldable pub run_canary_cycle : Draw → CanaryRolloutState → CycleInput → ModelRegistry → Cycled
run_canary_cycle draw state input registry =
    raise_if (not (is_in_progress state.status)) value_error
    >> (judge_health draw input >>= λ health. act_on state input registry health)
