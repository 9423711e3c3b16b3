-- ===== src/Scripts/NightQueue/Interrupted.antt =====
-- scripts/night_queue.py: what an interruption does to the rest of the queue.
use model_hub.Prelude.{
  ℕ, ◌≡◌, inl, inr, refl, true, false, ◌||◌, List, [], ◌∷◌, ◌++◌, String, All, leb, arith, sym, ◌∙◌,
  Bool-cases,
}
use mathlib.Core.List.{append_assoc, append-nil}
use mathlib.Core.Path.{subst}
use model_hub.Scripts.NightQueue.{
  NightTask, TaskOutcome, QueueTaskStatus, interrupted, deferred, NightQueueReport,
  build_night_queue,
}
use model_hub.Scripts.NightQueue.Run.{
  QueueConfig, QueueState, QueueRun, finished, refused, exception_escapes, never_ends, Write,
  run_tasks, run_night_queue, defer, record_outcome, must_defer, is_status, start_state,
}
use model_hub.Scripts.NightQueue.Steps.{
  run_tasks_defers, run_tasks_records, run_tasks_escapes, run_tasks_never_ends, watched_cases,
  record_outcome-outcomes, beat_if_due-is_interrupted,
}

abbrev pub IsDeferred : TaskOutcome → Type 0
IsDeferred o = o.status ≡ deferred

-- After an INTERRUPTED outcome every outcome is DEFERRED.
abbrev pub OnlyDeferredAfterInterrupted : List TaskOutcome → Type 0
OnlyDeferredAfterInterrupted [] = Unit
OnlyDeferredAfterInterrupted (o ∷ os) =
    (o.status ≡ interrupted → All IsDeferred os) × OnlyDeferredAfterInterrupted os

is_status_interrupted : (s : QueueTaskStatus) → s ≡ interrupted → is_status s interrupted ≡ true
is_status_interrupted s h = rw h refl

module _ (now_fn : ℕ → ℕ) (now_iso_fn : ℕ → String) (config : QueueConfig) where
  -- What the loop adds to the outcomes of `s`.
  abbrev Adds : QueueState → QueueRun → Type 0
  Adds s (finished report writes) =
      (new : List TaskOutcome) × (report.outcomes ≡ s.outcomes ++ new)
      × OnlyDeferredAfterInterrupted new
      × (s.is_interrupted ≡ true → All IsDeferred new)
  Adds s (refused e) = Unit
  Adds s (exception_escapes writes) = Unit
  Adds s never_ends = Unit

  Adds-step :
      (o : TaskOutcome) (s u : QueueState) (r : QueueRun)
      → u.outcomes ≡ s.outcomes ++ o ∷ []
      → (o.status ≡ interrupted → u.is_interrupted ≡ true)
      → (s.is_interrupted ≡ true → (o.status ≡ deferred) × (u.is_interrupted ≡ true))
      → Adds u r
      → Adds s r
  Adds-step o s u (finished report writes) more raised kept (new, e, quiet, rest) = (
    o ∷ new,
    e ∙ simp (more, append_assoc),
    (λ i. rest (raised i), quiet),
    λ i. ((kept i).0, rest (kept i).1),
  )
  Adds-step o s u (refused e) more raised kept h = tt
  Adds-step o s u (exception_escapes writes) more raised kept h = tt
  Adds-step o s u never_ends more raised kept h = tt

  record_outcome-is_interrupted :
      (o : TaskOutcome) (n : ℕ) (s : QueueState)
      → (record_outcome now_fn now_iso_fn config o n s).is_interrupted
        ≡ (s.is_interrupted || is_status o.status interrupted)
  unfolding record_outcome
  record_outcome-is_interrupted o n s = beat_if_due-is_interrupted now_fn now_iso_fn config _

  running :
      (start : ℕ) (s : QueueState)
      → must_defer now_fn now_iso_fn config start s ≡ false
      → s.is_interrupted ≡ false
  running start s h = ground arith

  run_tasks-Adds :
      (start : ℕ) (queue : List NightTask) (s : QueueState)
      → Adds s (run_tasks now_fn now_iso_fn config start queue s)
  unfolding run_tasks defer
  run_tasks-Adds start [] s = ([], sym (append-nil _), tt, λ h. tt)
  run_tasks-Adds start (t ∷ queue) s =
      elim (Bool-cases (must_defer now_fn now_iso_fn config start s)) [
        | inl e ↦ rw (run_tasks_defers now_fn now_iso_fn config start t queue s e) (
            Adds-step _ s (defer now_fn now_iso_fn config t s) _ refl (λ i. cc) (λ i. (refl, i))
              (run_tasks-Adds start queue (defer now_fn now_iso_fn config t s)))
        | inr e ↦ elim (watched_cases now_fn now_iso_fn config t s) [
          | inl (o, n, w) ↦
              let u = record_outcome now_fn now_iso_fn config o n s in
              let flag = record_outcome-is_interrupted o n s in
              rw (run_tasks_records now_fn now_iso_fn config start t queue s o n e w) (
                Adds-step o s u _ (record_outcome-outcomes now_fn now_iso_fn config o n s)
                  (λ i. flag ∙ ground (arith, is_status_interrupted o.status i, running start s e))
                  (λ i. cc (running start s e)) (run_tasks-Adds start queue u))
          | inr (inl w) ↦ rw (run_tasks_escapes now_fn now_iso_fn config start t queue s e w) tt
          | inr (inr w) ↦ rw (run_tasks_never_ends now_fn now_iso_fn config start t queue s e w) tt
        ]
      ]

  run_night_queue-Adds :
      (tasks : List NightTask)
      → Adds (start_state now_fn now_iso_fn config) (run_night_queue now_fn now_iso_fn config tasks)
  unfolding run_night_queue
  run_night_queue-Adds tasks = elim (Bool-cases (leb config.time_budget_s 0)) [
    | inl z ↦ rw z tt
    | inr z ↦
        rw z (
          run_tasks-Adds (now_fn 0) (build_night_queue tasks)
            (start_state now_fn now_iso_fn config))
  ]

  -- In the report of a night queue that ends, whatever its tasks do, every task after an
  -- INTERRUPTED one is DEFERRED.
  pub run_night_queue_interrupted :
      (tasks : List NightTask) (report : NightQueueReport) (writes : List Write)
      → run_night_queue now_fn now_iso_fn config tasks ≡ finished report writes
      → OnlyDeferredAfterInterrupted report.outcomes
  run_night_queue_interrupted tasks report writes e =
      let (new, added, quiet, rest) =
        subst (Adds (start_state now_fn now_iso_fn config)) e (run_night_queue-Adds tasks) in
      subst OnlyDeferredAfterInterrupted (sym added) quiet
