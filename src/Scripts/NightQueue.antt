-- ===== src/Scripts/NightQueue.antt =====
-- scripts/night_queue.py: tasks, outcomes, the queue and the watchdog. Times are numbers of clock
-- ticks. What a task's own code does is part of the task: how long it runs and how it ends, or
-- that it hangs. `now_fn` gives the reading of each call of the clock; a state counts the calls.
pub mod Run
pub mod Order
pub mod Steps
pub mod Finishes
pub mod Interrupted
use model_hub.Prelude.{
  ℕ, suc, ◌+◌, Bool, true, false, not, Option, none, some, List, [], ◌∷◌, map, String, Result, ok,
  err, length, leb, ltb, if◌then◌else◌,
}
use model_hub.Prelude.SortOn.{sort_on}
use model_hub.Prelude.Grouping.{sum_of}
use model_hub.Common.Errors.{Exception, value_error}
use model_hub.Common.Capability.{CheckStatus, pass, is_available}

pub data TaskRiskLevel : Type 0 where
  low : TaskRiskLevel
  medium : TaskRiskLevel
  high : TaskRiskLevel

pub data QueueTaskStatus : Type 0 where
  pending : QueueTaskStatus
  completed : QueueTaskStatus
  failed : QueueTaskStatus
  interrupted : QueueTaskStatus
  smoke_test_not_passed : QueueTaskStatus
  deferred : QueueTaskStatus

-- How `run()` or a smoke test ends: it returns, raises a `TimeoutError` or another exception of
-- the given text, raises a `SystemExit`, or a `KeyboardInterrupt` arrives while it runs.
pub data Ending (A : Type 0) : Type 0 where
  returns : A → Ending A
  raises_timeout : Ending A
  raises : String → Ending A
  system_exit : Ending A
  keyboard_interrupt : Ending A

pub data TaskRun : Type 0 where
  ends_after : ℕ → Ending (Unit {0}) → TaskRun
  hangs : TaskRun

-- No watchdog covers a smoke test.
pub data SmokeRun : Type 0 where
  probe_ends : Ending CheckStatus → SmokeRun
  probe_hangs : SmokeRun

pub record NightTask : Type 0 where
  pub task_id : String
  pub risk_level : TaskRiskLevel
  pub estimated_duration_s : ℕ
  pub run : TaskRun
  pub smoke_test : Option SmokeRun
  pub watchdog_timeout_s : Option ℕ

-- The checks of `__post_init__`.
unfoldable pub post_init : NightTask → Result Exception NightTask
post_init t = if leb t.estimated_duration_s 0 then err value_error else elim t.watchdog_timeout_s [
  | some timeout ↦ if leb timeout 0 then err value_error else ok t
  | none ↦ ok t
]

-- The texts of `detail`, one constructor to each.
pub data Detail : Type 0 where
  smoke_test_raised : String → Detail
  smoke_test_returned : CheckStatus → Detail
  interrupted_while_running : Detail
  exceeded_watchdog : Option ℕ → Detail
  raised : String → Detail
  queue_interrupted : Detail
  budget_exhausted : Detail

pub record TaskOutcome : Type 0 where
  pub task_id : String
  pub status : QueueTaskStatus
  pub started_at : Option ℕ
  pub ended_at : Option ℕ
  pub detail : Option Detail

pub record NightQueueReport : Type 0 where
  pub outcomes : List TaskOutcome

unfoldable pub risk_order : TaskRiskLevel → ℕ
risk_order low = 0
risk_order medium = 1
risk_order high = 2

unfoldable pub build_night_queue : List NightTask → List NightTask
build_night_queue tasks = sort_on (λ t. risk_order t.risk_level) tasks

pub record TaskSnapshot : Type 0 where
  pub task_id : String
  pub risk_level : TaskRiskLevel
  pub estimated_duration_s : ℕ
  pub has_smoke_test : Bool

pub record QueueSnapshot : Type 0 where
  pub queue_date : String
  pub task_count : ℕ
  pub total_estimated_duration_s : ℕ
  pub tasks : List TaskSnapshot

abbrev has_smoke_test : Option SmokeRun → Bool
has_smoke_test none = false
has_smoke_test (some s) = true

unfoldable pub render_queue_snapshot : List NightTask → String → QueueSnapshot
render_queue_snapshot queue queue_date = record {
  queue_date = queue_date;
  task_count = length queue;
  total_estimated_duration_s = sum_of (λ t. t.estimated_duration_s) queue;
  tasks =
      map
        (λ t. record {
          task_id = t.task_id;
          risk_level = t.risk_level;
          estimated_duration_s = t.estimated_duration_s;
          has_smoke_test = has_smoke_test t.smoke_test;
        })
        queue;
}

-- What one task comes to: an outcome with the clock readings made, a `KeyboardInterrupt` or a
-- `SystemExit` that escapes, or code without a watchdog that never returns.
pub data TaskResult : Type 0 where
  outcome : TaskOutcome → ℕ → TaskResult
  escapes : TaskResult
  never_returns : TaskResult

-- The outcome of a task that was started.
abbrev pub started : String → QueueTaskStatus → ℕ → ℕ → Option Detail → TaskOutcome
started task_id status started_at ended_at detail = record {
  task_id = task_id;
  status = status;
  started_at = some started_at;
  ended_at = some ended_at;
  detail = detail;
}

-- The `except` clauses around `task.run()` and the return below them, by how the run ended, after
-- `n` clock readings. A `TimeoutError` of the task's own is the `FutureTimeoutError` of the
-- watchdog; a `SystemExit` is caught by no clause.
abbrev pub result_of : String → Option ℕ → ℕ → ℕ → ℕ → Ending (Unit {0}) → TaskResult
result_of task_id timeout n s e (returns u) = outcome (started task_id completed s e none) n
result_of task_id timeout n s e raises_timeout =
    outcome (started task_id failed s e (some (exceeded_watchdog timeout))) n
result_of task_id timeout n s e (raises text) =
    outcome (started task_id failed s e (some (raised text))) n
result_of task_id timeout n s e system_exit = escapes
result_of task_id timeout n s e keyboard_interrupt =
    outcome (started task_id interrupted s e (some interrupted_while_running)) n

-- How the run ends as the queue sees it: `result(timeout=...)` gives up on a run that takes longer.
abbrev pub observed : TaskRun → Option ℕ → Option (Ending (Unit {0}))
observed (ends_after d ending) none = some ending
observed hangs none = none
observed (ends_after d ending) (some timeout) =
    some (if leb d timeout then ending else raises_timeout)
observed hangs (some timeout) = some raises_timeout

-- The outcome of a task that did not start.
abbrev pub not_started : String → QueueTaskStatus → Detail → TaskOutcome
not_started task_id status detail = record {
  task_id = task_id;
  status = status;
  started_at = none;
  ended_at = none;
  detail = some detail;
}

abbrev pub run_watched : NightTask → (ℕ → ℕ) → ℕ → TaskResult
run_watched task now_fn readings = elim (observed task.run task.watchdog_timeout_s) [
  | none ↦ never_returns
  | some ending ↦
      result_of task.task_id task.watchdog_timeout_s (suc (suc readings)) (now_fn readings)
        (now_fn (suc readings)) ending
]

unfoldable pub run_task_with_watchdog : NightTask → (ℕ → ℕ) → ℕ → TaskResult
unfolding is_available
run_task_with_watchdog task now_fn readings = elim task.smoke_test [
  | none ↦ run_watched task now_fn readings
  | some (probe_ends (returns status)) ↦
      if not (is_available status)
      then outcome (not_started task.task_id smoke_test_not_passed (smoke_test_returned status))
          readings
      else run_watched task now_fn readings
  | some (probe_ends raises_timeout) ↦
      outcome (not_started task.task_id failed (smoke_test_raised "TimeoutError")) readings
  | some (probe_ends (raises text)) ↦
      outcome (not_started task.task_id failed (smoke_test_raised text)) readings
  | some (probe_ends system_exit) ↦ escapes
  | some (probe_ends keyboard_interrupt) ↦ escapes
  | some probe_hangs ↦ never_returns
]
