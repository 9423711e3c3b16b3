-- ===== src/Tests/Nights.antt =====
-- The night queue on three tasks.
use model_hub.Prelude.{
  ℕ, ◌*◌, ◌≡◌, ◌↔◌, refl, true, some, List, [], ◌∷◌, ◌++◌, map, String, length, arith,
}
use model_hub.Prelude.Counting.{filter_if}
use model_hub.Prelude.SortOn.{sort_on}
use model_hub.Common.Capability.{pass}
use model_hub.Scripts.NightQueue.{
  NightTask, TaskRiskLevel, low, medium, high, risk_order, TaskRun, returns, raises,
  keyboard_interrupt, ends_after, hangs, NightQueueReport, build_night_queue,
  run_task_with_watchdog, not_started, started, probe_ends, deferred, interrupted,
  queue_interrupted, interrupted_while_running,
}
use model_hub.Scripts.NightQueue.Order.{
  is_low, is_medium, is_high, build_night_queue_stable, Completes, IsCompleted, run_task-Completes,
}
use model_hub.Scripts.NightQueue.Run.{
  QueueConfig, run_night_queue, finished, Heartbeat, Write, heartbeat, manifest,
}
use model_hub.Scripts.NightQueue.Finishes.{run_night_queue_finishes}
use model_hub.Scripts.NightQueue.Interrupted.{
  OnlyDeferredAfterInterrupted, run_night_queue_interrupted,
}

abbrev task : String → TaskRiskLevel → TaskRun → NightTask
task id risk_level run = record {
  task_id = id;
  risk_level = risk_level;
  estimated_duration_s = 60;
  run = run;
  smoke_test = some (probe_ends (returns pass));
  watchdog_timeout_s = some 100;
}

abbrev sweep : NightTask
sweep = task "sweep" high hangs

abbrev stress : NightTask
stress = task "stress" medium (ends_after 30 (returns tt))

abbrev eval : NightTask
eval = task "eval" low (ends_after 40 (raises "RuntimeError"))

abbrev night : List NightTask
night = sweep ∷ stress ∷ eval ∷ []

abbrev clock : ℕ → ℕ
clock n = 10 * n

abbrev iso : ℕ → String
iso n = "2026-07-01T00:00:00"

abbrev config : QueueConfig
config = record {
  time_budget_s = 3600;
  has_manifests_dir = true;
  heartbeat_interval_s = 900;
  queue_date = "20260701";
}

build_night_queue_stable_example :
    build_night_queue night
    ≡ filter_if is_low night ++ (filter_if is_medium night ++ filter_if is_high night)
build_night_queue_stable_example = build_night_queue_stable night

queue_of_night : build_night_queue night ≡ eval ∷ stress ∷ sweep ∷ []
unfolding build_night_queue risk_order sort_on
queue_of_night = refl

run_task-Completes_example : IsCompleted (run_task_with_watchdog stress clock 0) ↔ Completes stress
run_task-Completes_example = run_task-Completes stress clock 0

run_night_queue_finishes_example :
    (report : NightQueueReport) × (earlier : List Write) × (last : Heartbeat) × (run_night_queue
        clock iso config night
      ≡ finished report (earlier ++ heartbeat last ∷ []))
    × (last.outcomes ≡ report.outcomes)
    × (last.task_count ≡ length report.outcomes)
    × (map (λ o. o.task_id) report.outcomes ≡ map (λ t. t.task_id) (build_night_queue night))
run_night_queue_finishes_example =
    run_night_queue_finishes clock iso config night (omega arith) (omega arith)

abbrev stopped : NightTask
stopped = task "stopped" low (ends_after 5 keyboard_interrupt)

abbrev report_of_stopped : NightQueueReport
report_of_stopped = record {
  outcomes =
      record {
        task_id = "stopped";
        status = interrupted;
        started_at = some 20;
        ended_at = some 30;
        detail = some interrupted_while_running;
      }
      ∷ (not_started "stress" deferred queue_interrupted ∷ []);
}

abbrev writes_of_stopped : List Write
writes_of_stopped =
    manifest (started "stopped" interrupted 20 30 (some interrupted_while_running))
    ∷ (heartbeat (record {
      queue_date = "20260701";
      written_at = "2026-07-01T00:00:00";
      task_count = 2;
      outcomes = report_of_stopped.outcomes;
    })
        ∷ [])

run_stopped :
    run_night_queue clock iso config (stopped ∷ stress ∷ [])
    ≡ finished report_of_stopped writes_of_stopped
unfolding run_night_queue build_night_queue risk_order run_task_with_watchdog sort_on
run_stopped = refl

run_night_queue_interrupted_example : OnlyDeferredAfterInterrupted report_of_stopped.outcomes
run_night_queue_interrupted_example =
    run_night_queue_interrupted clock iso config (stopped ∷ stress ∷ []) report_of_stopped
      writes_of_stopped run_stopped
