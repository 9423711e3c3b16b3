-- ===== src/Release/Orchestrator/Cycle.antt =====
-- What one cycle does to the rollout and to the registry, for each decision of the health check.
use model_hub.Prelude.{
  if◌then◌else◌, ◌+◌, ◌≤◌, ◌≡◌, refl, ◌↔◌, true, false, none, some, String, ok, err, arith, length,
}
use mathlib.Core.Path.{subst}
use model_hub.Common.Errors.{Exception, value_error}
use model_hub.Gate.Types.{GateDecision, GateResult}
use model_hub.Release.Health.{HealthDetail}
use model_hub.Release.Registry.{
  ModelStatus, ModelRegistry, get, write, is_deployed, mark_rolled_back as roll_back_entry,
}
use model_hub.Release.Canary.{
  CanaryRolloutState, is_in_progress, try_advance_stage, mark_rolled_back,
}
use model_hub.Release.Sampling.{Draw}
use model_hub.Release.Orchestrator.{
  CycleAction, CanaryCycleResult, CycleInput, Cycled, trigger_rollback, act_on, judge_health,
  run_canary_cycle, action_of,
}

module _ (draw : Draw) (state : CanaryRolloutState) (input : CycleInput)
    (registry : ModelRegistry) where
  -- What a cycle returns on a health check's result, or the exception that it raises.
  abbrev pub Outcome : GateResult HealthDetail → Cycled → Type 0
  Outcome health cycled = elim health.decision [
    | GateDecision.reject ↦ cycled ≡ elim (get input.model_id input.canary_version registry) [
      | none ↦ err value_error
      | some e ↦
          if is_deployed e.status
          then ok (
            record {
              action = CycleAction.rolled_back;
              state = mark_rolled_back state;
              health = health;
            },
            write (record e { status = ModelStatus.rolled_back; notes = some health.detail })
                registry,
          )
          else err value_error
    ]
    | GateDecision.not_applicable ↦
        cycled
        ≡ ok (record { action = CycleAction.continue; state = state; health = health }, registry)
    | GateDecision.pass ↦
        (r : CanaryCycleResult) × (cycled ≡ ok (r, registry))
        × (r.state ≡ try_advance_stage state input.canary_config)
        × (r.health ≡ health)
        × ((r.action ≡ CycleAction.advanced) ↔ (
            (input.canary_config.min_requests_per_stage ≤ state.requests_at_current_stage)
            × (¬ (state.stage_index + 1 ≡ length input.canary_config.stages))))
        × ((r.action ≡ CycleAction.completed) ↔ (
            (input.canary_config.min_requests_per_stage ≤ state.requests_at_current_stage)
            × (state.stage_index + 1 ≡ length input.canary_config.stages)))
  ]

  action_advanced :
      is_in_progress state.status ≡ true
      → ((action_of state (try_advance_stage state input.canary_config) ≡ CycleAction.advanced) ↔ (
          (input.canary_config.min_requests_per_stage ≤ state.requests_at_current_stage)
          × (¬ (state.stage_index + 1 ≡ length input.canary_config.stages))))
  unfolding try_advance_stage
  action_advanced h = (λ e. (ground arith, λ k. ground arith), λ (a, b). ground arith)

  action_completed :
      is_in_progress state.status ≡ true
      → ((action_of state (try_advance_stage state input.canary_config) ≡ CycleAction.completed) ↔ (
          (input.canary_config.min_requests_per_stage ≤ state.requests_at_current_stage)
          × (state.stage_index + 1 ≡ length input.canary_config.stages)))
  unfolding try_advance_stage
  action_completed h = (λ e. (ground arith, ground arith), λ (a, b). ground arith)

  acted :
      (n : String) (d : GateDecision) (t : HealthDetail)
      → is_in_progress state.status ≡ true
      → Outcome
          (record { gate_name = n; decision = d; detail = t })
          (act_on state input registry (record { gate_name = n; decision = d; detail = t }))
  unfolding act_on trigger_rollback roll_back_entry
  acted n GateDecision.reject t h = ground arith
  acted n GateDecision.not_applicable t h = refl
  acted n GateDecision.pass t h = (_, refl, refl, refl, action_advanced h, action_completed h)

  act_on-Outcome :
      (health : GateResult HealthDetail)
      → is_in_progress state.status ≡ true
      → Outcome health (act_on state input registry health)
  act_on-Outcome health h = acted health.gate_name health.decision health.detail h

  -- A cycle on a rollout that is not in progress is a ValueError, and one whose samples cannot be
  -- judged raises what the health check raises. Otherwise the decision rules: too few samples
  -- leave the rollout and the registry as they are; a healthy canary keeps the registry and moves
  -- to the next stage, or completes at the last one, exactly when the stage has had its requests;
  -- and an unhealthy one is rolled back in both, or, when its version is not deployed, the cycle
  -- raises a ValueError.
  pub run_canary_cycle_acts :
      ((is_in_progress state.status ≡ false)
        → run_canary_cycle draw state input registry ≡ err value_error)
      × ((is_in_progress state.status ≡ true)
          → ((x : Exception)
              → judge_health draw input ≡ err x
              → run_canary_cycle draw state input registry ≡ err x)
            × ((health : GateResult HealthDetail)
                → judge_health draw input ≡ ok health
                → Outcome health (run_canary_cycle draw state input registry)))
  unfolding run_canary_cycle
  run_canary_cycle_acts = (
    λ h. rw (h, run_canary_cycle) refl,
    λ h. (
      λ x e. rw (h, run_canary_cycle) (rw (e, run_canary_cycle) refl),
      λ health e. subst (Outcome health) (returned h e) (act_on-Outcome health h),
    ),
  )
    where
      returned :
          {health : GateResult HealthDetail}
          → is_in_progress state.status ≡ true
          → judge_health draw input ≡ ok health
          → act_on state input registry health ≡ run_canary_cycle draw state input registry
      returned h e = rw (h, run_canary_cycle) (rw (e, run_canary_cycle) refl)
