-- ===== src/Scripts/NightQueue/Run.antt =====
-- scripts/night_queue.py: the run of the queue. Every file written is an entry of `writes`, the
-- oldest first; `now_iso_fn` is indexed by its calls as the clock is.
use model_hub.Prelude.{
  ℕ, suc, ◌+◌, Bool, true, false, ◌||◌, List, [], ◌∷◌, ◌++◌, String, length, leb, if◌then◌else◌,
}
use model_hub.Prelude.Counting.{filter_if}
use model_hub.Prelude.{map}
use model_hub.Common.Errors.{Exception, value_error}
use model_hub.Scripts.NightQueue.{
  NightTask, TaskOutcome, NightQueueReport, QueueTaskStatus, pending, completed, failed,
  interrupted, smoke_test_not_passed, deferred, TaskResult, outcome, escapes, never_returns,
  build_night_queue, run_task_with_watchdog, not_started, queue_interrupted, budget_exhausted,
}

pub record Heartbeat : Type 0 where
  pub queue_date : String
  pub written_at : String
  pub task_count : ℕ
  pub outcomes : List TaskOutcome

unfoldable pub render_heartbeat : NightQueueReport → String → String → Heartbeat
render_heartbeat report queue_date written_at = record {
  queue_date = queue_date;
  written_at = written_at;
  task_count = length report.outcomes;
  outcomes = report.outcomes;
}

-- A file that the queue writes: the manifest of a task, or the heartbeat.
pub data Write : Type 0 where
  manifest : TaskOutcome → Write
  heartbeat : Heartbeat → Write

-- `status in _MANIFEST_STATUSES`
unfoldable pub has_manifest : QueueTaskStatus → Bool
has_manifest pending = false
has_manifest completed = true
has_manifest failed = true
has_manifest interrupted = true
has_manifest smoke_test_not_passed = false
has_manifest deferred = false

unfoldable pub write_task_manifest : TaskOutcome → List Write → List Write
unfolding has_manifest
write_task_manifest o writes = if has_manifest o.status then writes ++ manifest o ∷ [] else writes

-- `o.status is status`
abbrev pub is_status : QueueTaskStatus → QueueTaskStatus → Bool
is_status pending pending = true
is_status completed completed = true
is_status failed failed = true
is_status interrupted interrupted = true
is_status smoke_test_not_passed smoke_test_not_passed = true
is_status deferred deferred = true
is_status _ _ = false

unfoldable pub by_status : NightQueueReport → QueueTaskStatus → List String
by_status report status =
    map (λ o. o.task_id) (filter_if (λ o. is_status o.status status) report.outcomes)

pub record QueueConfig : Type 0 where
  pub time_budget_s : ℕ
  pub has_manifests_dir : Bool
  pub heartbeat_interval_s : ℕ
  pub queue_date : String

-- The local variables of the loop, with the calls of both clocks and the files written.
pub record QueueState : Type 0 where
  pub outcomes : List TaskOutcome
  pub last_heartbeat : ℕ
  pub is_interrupted : Bool
  pub readings : ℕ
  pub iso_readings : ℕ
  pub writes : List Write

pub data QueueRun : Type 0 where
  finished : NightQueueReport → List Write → QueueRun
  refused : Exception → QueueRun
  exception_escapes : List Write → QueueRun
  never_ends : QueueRun

module _ (now_fn : ℕ → ℕ) (now_iso_fn : ℕ → String) (config : QueueConfig) where
  unfoldable pub write_heartbeat : QueueState → QueueState
  unfolding render_heartbeat
  write_heartbeat s = record s {
    iso_readings = suc s.iso_readings;
    writes =
        s.writes
        ++ heartbeat (
            render_heartbeat (record { outcomes = s.outcomes }) config.queue_date
              (now_iso_fn s.iso_readings))
          ∷ [];
  }

  -- The heartbeat that is due, and the clock reading that records it.
  unfoldable pub beat_if_due : QueueState → QueueState
  unfolding write_heartbeat
  beat_if_due s =
      if leb (s.last_heartbeat + config.heartbeat_interval_s) (now_fn s.readings)
      then record (write_heartbeat s) {
        last_heartbeat = now_fn (suc s.readings);
        readings = suc (suc s.readings);
      }
      else record s { readings = suc s.readings }

  -- The loop's body after the watchdog returned `o`.
  unfoldable pub record_outcome : TaskOutcome → ℕ → QueueState → QueueState
  unfolding write_task_manifest beat_if_due
  record_outcome o readings s = beat_if_due (record s {
    outcomes = s.outcomes ++ o ∷ [];
    is_interrupted = s.is_interrupted || is_status o.status interrupted;
    readings = readings;
    writes = if config.has_manifests_dir then write_task_manifest o s.writes else s.writes;
  })

  -- The loop's body for a task that is not started.
  unfoldable pub defer : NightTask → QueueState → QueueState
  defer task s = record s {
    outcomes =
        s.outcomes
        ++ not_started task.task_id deferred
            (if s.is_interrupted then queue_interrupted else budget_exhausted)
          ∷ [];
    readings = if s.is_interrupted then s.readings else suc s.readings;
  }

  -- `interrupted or (now_fn() - start) >= time_budget_s`
  abbrev pub must_defer : ℕ → QueueState → Bool
  must_defer start s = s.is_interrupted || leb (start + config.time_budget_s) (now_fn s.readings)

  -- The clock has been read for the test when it was made.
  abbrev pub watched : NightTask → QueueState → TaskResult
  watched task s = run_task_with_watchdog task now_fn (suc s.readings)

  abbrev pub finish : QueueState → QueueRun
  finish s = finished (record { outcomes = s.outcomes }) (write_heartbeat s).writes

  unfoldable pub run_tasks : ℕ → List NightTask → QueueState → QueueRun
  unfolding write_heartbeat defer record_outcome
  run_tasks start [] s = finish s
  run_tasks start (task ∷ queue) s = elim (must_defer start s) [
    | true ↦ run_tasks start queue (defer task s)
    | false ↦ elim (watched task s) [
      | outcome o readings ↦ run_tasks start queue (record_outcome o readings s)
      | escapes ↦ exception_escapes s.writes
      | never_returns ↦ never_ends
    ]
  ]

  abbrev pub start_state : QueueState
  start_state = record {
    outcomes = [];
    last_heartbeat = now_fn 0;
    is_interrupted = false;
    readings = 1;
    iso_readings = 0;
    writes = [];
  }

  unfoldable pub run_night_queue : List NightTask → QueueRun
  unfolding run_tasks
  run_night_queue tasks =
      if leb config.time_budget_s 0
      then refused value_error
      else run_tasks (now_fn 0) (build_night_queue tasks) start_state
