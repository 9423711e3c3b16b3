-- ===== src/Scripts/NightQueue/Finishes.antt =====
-- scripts/night_queue.py: the queue comes to its end, with an outcome for every task.
use model_hub.Prelude.{
  ℕ, suc, ◌<◌, ◌≡◌, ◌∙◌, sym, inl, inr, refl, Bool, true, false, Option, none, some, List, [], ◌∷◌,
  ◌++◌, map, length, String, All, leb, if◌then◌else◌, arith, Bool-cases,
}
use mathlib.Core.List.{map-append, append_assoc, append-nil}
use model_hub.Prelude.SortOn.{All-sort_on}
use model_hub.Common.Capability.{pass, fail, skip, warn, is_available}
use model_hub.Scripts.NightQueue.{
  NightTask, TaskRun, Ending, returns, raises_timeout, raises, keyboard_interrupt, ends_after,
  hangs, system_exit, SmokeRun, probe_ends, probe_hangs, TaskOutcome, TaskResult, outcome,
  run_task_with_watchdog, run_watched, result_of, build_night_queue, NightQueueReport, risk_order,
}
use model_hub.Scripts.NightQueue.Steps.{
  run_tasks_defers, run_tasks_records, record_outcome-outcomes,
}
use model_hub.Scripts.NightQueue.Run.{
  QueueConfig, QueueState, QueueRun, finished, Heartbeat, heartbeat, Write, run_tasks,
  run_night_queue, defer, record_outcome, write_heartbeat, must_defer, finish, start_state,
  render_heartbeat,
}

abbrev RunEnds : TaskRun → Option ℕ → Type 0
RunEnds hangs none = ⊥
RunEnds hangs (some timeout) = Unit
RunEnds (ends_after d system_exit) timeout = ⊥
RunEnds (ends_after d _) timeout = Unit

abbrev SmokeEnds : Option SmokeRun → Type 0
SmokeEnds none = Unit
SmokeEnds (some probe_hangs) = ⊥
SmokeEnds (some (probe_ends system_exit)) = ⊥
SmokeEnds (some (probe_ends keyboard_interrupt)) = ⊥
SmokeEnds (some (probe_ends _)) = Unit

-- The task's code ends or a watchdog is set, its smoke test ends, neither raises a `SystemExit`,
-- and no `KeyboardInterrupt` hits the smoke test.
abbrev pub Ends : NightTask → Type 0
Ends t = RunEnds t.run t.watchdog_timeout_s × SmokeEnds t.smoke_test

-- The result is an outcome for the task of that id.
abbrev HasOutcome : String → TaskResult → Type 0
HasOutcome id r = (o : TaskOutcome) × (n : ℕ) × (r ≡ outcome o n) × (o.task_id ≡ id)

module _ (id : String) (timeout : Option ℕ) (n s e d : ℕ) where
  result_of-HasOutcome :
      (ending : Ending (Unit {0}))
      → RunEnds (ends_after d ending) timeout
      → HasOutcome id (result_of id timeout n s e ending)
  result_of-HasOutcome (returns u) h = (_, _, refl, refl)
  result_of-HasOutcome raises_timeout h = (_, _, refl, refl)
  result_of-HasOutcome (raises text) h = (_, _, refl, refl)
  result_of-HasOutcome system_exit h = elim h [ ]
  result_of-HasOutcome keyboard_interrupt h = (_, _, refl, refl)

  -- In time the ending counts, and later the timeout does.
  in_time-HasOutcome :
      (b : Bool) (ending : Ending (Unit {0}))
      → RunEnds (ends_after d ending) timeout
      → HasOutcome id (result_of id timeout n s e (if b then ending else raises_timeout))
  in_time-HasOutcome true ending h = result_of-HasOutcome ending h
  in_time-HasOutcome false ending h = (_, _, refl, refl)

module _ (t : NightTask) (now_fn : ℕ → ℕ) (readings : ℕ) where
  run_watched-HasOutcome :
      (run : TaskRun) (timeout : Option ℕ)
      → RunEnds run timeout
      → HasOutcome t.task_id
          (run_watched (record t { run = run; watchdog_timeout_s = timeout }) now_fn readings)
  run_watched-HasOutcome (ends_after d e) none h = result_of-HasOutcome t.task_id none _ _ _ d e h
  run_watched-HasOutcome (ends_after d e) (some timeout) h =
      in_time-HasOutcome t.task_id (some timeout) _ _ _ d (leb d timeout) e h
  run_watched-HasOutcome hangs none h = elim h [ ]
  run_watched-HasOutcome hangs (some timeout) h = (_, _, refl, refl)

  run_task-HasOutcome :
      (smoke : Option SmokeRun)
      → Ends (record t { smoke_test = smoke })
      → HasOutcome t.task_id
          (run_task_with_watchdog (record t { smoke_test = smoke }) now_fn readings)
  unfolding run_task_with_watchdog is_available
  run_task-HasOutcome none h = run_watched-HasOutcome t.run t.watchdog_timeout_s h.0
  run_task-HasOutcome (some (probe_ends (returns pass))) h =
      run_watched-HasOutcome t.run t.watchdog_timeout_s h.0
  run_task-HasOutcome (some (probe_ends (returns fail))) h = (_, _, refl, refl)
  run_task-HasOutcome (some (probe_ends (returns skip))) h = (_, _, refl, refl)
  run_task-HasOutcome (some (probe_ends (returns warn))) h = (_, _, refl, refl)
  run_task-HasOutcome (some (probe_ends raises_timeout)) h = (_, _, refl, refl)
  run_task-HasOutcome (some (probe_ends (raises text))) h = (_, _, refl, refl)
  run_task-HasOutcome (some (probe_ends system_exit)) h = elim h.1 [ ]
  run_task-HasOutcome (some (probe_ends keyboard_interrupt)) h = elim h.1 [ ]
  run_task-HasOutcome (some probe_hangs) h = elim h.1 [ ]

module _ (now_fn : ℕ → ℕ) (now_iso_fn : ℕ → String) (config : QueueConfig) where
  abbrev ids : List TaskOutcome → List String
  ids os = map (λ o. o.task_id) os

  -- The loop ends in a state with one more outcome for each task.
  abbrev Covers : List NightTask → QueueState → QueueRun → Type 0
  Covers queue s r =
      (s' : QueueState) × (r ≡ finish now_fn now_iso_fn config s')
      × (ids s'.outcomes ≡ ids s.outcomes ++ map (λ t. t.task_id) queue)

  Covers-step :
      (t : NightTask) (o : TaskOutcome) (queue : List NightTask) (s u : QueueState) (r : QueueRun)
      → o.task_id ≡ t.task_id
      → u.outcomes ≡ s.outcomes ++ o ∷ []
      → Covers queue u r
      → Covers (t ∷ queue) s r
  Covers-step t o queue s u r same more (s', e, covers) =
      (s', e, covers ∙ simp (more, map-append, append_assoc, same))

  run_tasks-Covers :
      (start : ℕ) (queue : List NightTask) (s : QueueState)
      → All Ends queue
      → Covers queue s (run_tasks now_fn now_iso_fn config start queue s)
  unfolding run_tasks defer
  run_tasks-Covers start [] s h = (s, refl, sym (append-nil _))
  run_tasks-Covers start (t ∷ queue) s h =
      elim (Bool-cases (must_defer now_fn now_iso_fn config start s)) [
        | inl e ↦ rw (run_tasks_defers now_fn now_iso_fn config start t queue s e) (
            Covers-step t _ queue s (defer now_fn now_iso_fn config t s) _ refl refl
              (run_tasks-Covers start queue (defer now_fn now_iso_fn config t s) h.1))
        | inr e ↦
            let w = run_task-HasOutcome t now_fn (suc s.readings) t.smoke_test h.0 in
            let u = record_outcome now_fn now_iso_fn config w.0 w.1 s in
            rw (run_tasks_records now_fn now_iso_fn config start t queue s w.0 w.1 e w.2) (
              Covers-step t w.0 queue s u _ w.3
                (record_outcome-outcomes now_fn now_iso_fn config w.0 w.1 s)
                (run_tasks-Covers start queue u h.1))
      ]

  -- With a positive time budget, when the code of every task ends or is under a watchdog, every
  -- smoke test ends, none of them raises a `SystemExit` and no `KeyboardInterrupt` hits a smoke
  -- test, the night queue comes to its end with one outcome for each task, in the order of the
  -- queue, and the last file that it writes is a heartbeat that lists every outcome.
  pub run_night_queue_finishes :
      (tasks : List NightTask)
      → 0 < config.time_budget_s
      → All Ends tasks
      → (report : NightQueueReport) × (earlier : List Write) × (last : Heartbeat) × (run_night_queue
            now_fn now_iso_fn config tasks
          ≡ finished report (earlier ++ heartbeat last ∷ []))
        × (last.outcomes ≡ report.outcomes)
        × (last.task_count ≡ length report.outcomes)
        × (ids report.outcomes ≡ map (λ t. t.task_id) (build_night_queue tasks))
  unfolding run_night_queue write_heartbeat render_heartbeat
  run_night_queue_finishes tasks pos h =
      let ends : All Ends (build_night_queue tasks) =
        unfold build_night_queue in All-sort_on (λ t. risk_order t.risk_level) Ends tasks h in
      let end =
        run_tasks-Covers (now_fn 0) (build_night_queue tasks) (start_state now_fn now_iso_fn config)
          ends in
      (
        record { outcomes = end.0.outcomes },
        end.0.writes,
        render_heartbeat (record { outcomes = end.0.outcomes }) config.queue_date
            (now_iso_fn end.0.iso_readings),
        ground (arith, end.1),
        refl,
        refl,
        end.2,
      )
