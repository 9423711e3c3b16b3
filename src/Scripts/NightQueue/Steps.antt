-- ===== src/Scripts/NightQueue/Steps.antt =====
-- scripts/night_queue.py: one round of the queue's loop, as equations.
use model_hub.Prelude.{ℕ, ◌≡◌, ◌⊎◌, inl, inr, refl, true, false, List, [], ◌∷◌, ◌++◌, String, arith}
use model_hub.Scripts.NightQueue.{
  NightTask, TaskOutcome, TaskResult, outcome, escapes, never_returns,
}
use model_hub.Scripts.NightQueue.Run.{
  QueueConfig, QueueState, QueueRun, exception_escapes, never_ends, run_tasks, defer,
  record_outcome, beat_if_due, write_heartbeat, must_defer, watched,
}

module _ (now_fn : ℕ → ℕ) (now_iso_fn : ℕ → String) (config : QueueConfig) where
  pub beat_if_due-outcomes :
      (s : QueueState) → (beat_if_due now_fn now_iso_fn config s).outcomes ≡ s.outcomes
  unfolding beat_if_due write_heartbeat
  beat_if_due-outcomes s = ground arith

  pub beat_if_due-is_interrupted :
      (s : QueueState) → (beat_if_due now_fn now_iso_fn config s).is_interrupted ≡ s.is_interrupted
  unfolding beat_if_due write_heartbeat
  beat_if_due-is_interrupted s = ground arith

  pub record_outcome-outcomes :
      (o : TaskOutcome) (n : ℕ) (s : QueueState)
      → (record_outcome now_fn now_iso_fn config o n s).outcomes ≡ s.outcomes ++ o ∷ []
  unfolding record_outcome
  record_outcome-outcomes o n s = beat_if_due-outcomes _

  pub watched_cases :
      (t : NightTask) (s : QueueState)
      → ((o : TaskOutcome) × (n : ℕ) × (watched now_fn now_iso_fn config t s ≡ outcome o n))
        ⊎ ((watched now_fn now_iso_fn config t s ≡ escapes)
            ⊎ (watched now_fn now_iso_fn config t s ≡ never_returns))
  watched_cases t s = cases (watched now_fn now_iso_fn config t s)
    where
      cases :
          (r : TaskResult)
          → ((o : TaskOutcome) × (n : ℕ) × (r ≡ outcome o n))
            ⊎ ((r ≡ escapes) ⊎ (r ≡ never_returns))
      cases (outcome o n) = inl (o, n, refl)
      cases escapes = inr (inl refl)
      cases never_returns = inr (inr refl)

  module _ (start : ℕ) (t : NightTask) (queue : List NightTask) (s : QueueState) where
    abbrev rest : QueueState → QueueRun
    rest u = run_tasks now_fn now_iso_fn config start queue u

    abbrev whole : QueueRun
    whole = run_tasks now_fn now_iso_fn config start (t ∷ queue) s

    pub run_tasks_defers :
        must_defer now_fn now_iso_fn config start s ≡ true
        → whole ≡ rest (defer now_fn now_iso_fn config t s)
    unfolding run_tasks
    run_tasks_defers h = rw (h, run_tasks) refl

    pub run_tasks_records :
        (o : TaskOutcome) (n : ℕ)
        → must_defer now_fn now_iso_fn config start s ≡ false
        → watched now_fn now_iso_fn config t s ≡ outcome o n
        → whole ≡ rest (record_outcome now_fn now_iso_fn config o n s)
    unfolding run_tasks
    run_tasks_records o n h w = rw (h, w, run_tasks) refl

    pub run_tasks_escapes :
        must_defer now_fn now_iso_fn config start s ≡ false
        → watched now_fn now_iso_fn config t s ≡ escapes
        → whole ≡ exception_escapes s.writes
    unfolding run_tasks
    run_tasks_escapes h w = rw (h, w, run_tasks) refl

    pub run_tasks_never_ends :
        must_defer now_fn now_iso_fn config start s ≡ false
        → watched now_fn now_iso_fn config t s ≡ never_returns
        → whole ≡ never_ends
    unfolding run_tasks
    run_tasks_never_ends h w = rw (h, w, run_tasks) refl
