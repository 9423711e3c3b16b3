-- ===== src/SqlExec/Sandbox.antt =====
-- sqlexec/sandbox.py and sqlexec/pool.py: execution in a worker process. What the database does with
-- the statement, and what becomes of the process, are arguments.
use model_hub.Prelude.{
  ℕ, Bool, Option, none, some, List, [], ◌∷◌, ◌++◌, String, ◌<>◌, Result, ok, ◌>>=◌, length,
  if◌then◌else◌,
}
use model_hub.Prelude.Dict.{Dict, insert}
use model_hub.Prelude.Int.{ℤ}
use model_hub.Common.Errors.{ErrorCode, Exception, ContextValue, text, number, signed, missing}
use model_hub.Compare.Values.{Doubles}
use model_hub.Compare.Comparator.{Row}
use model_hub.SqlExec.Outcomes.{ExecOutcome, success, failure}
use model_hub.SqlExec.Backends.{
  Backend, DbRef, DbException, classify_sqlite_exception, classify_duckdb_exception,
  classify_postgres_exception,
}

abbrev pub default_row_limit : ℕ
default_row_limit = 1000

module _ (lower : String → String) where
  unfoldable pub classify : Backend → DbException → ErrorCode
  classify Backend.sqlite e = classify_sqlite_exception lower e
  classify Backend.duckdb e = classify_duckdb_exception lower e
  classify Backend.postgres e = classify_postgres_exception e

-- `ref.backend.value`
abbrev backend_value : Backend → String
backend_value Backend.sqlite = "sqlite"
backend_value Backend.duckdb = "duckdb"
backend_value Backend.postgres = "postgres"

abbrev backend_context : DbRef → Dict ContextValue
backend_context ref = ("backend", text (backend_value ref.backend)) ∷ []

abbrev exit_value : Option ℤ → ContextValue
exit_value none = missing
exit_value (some code) = signed code

module _ (d : Doubles) where
  pub record RawRows : Type 0 where
    pub columns : List String
    pub rows : List (Row d)
    pub has_more : Bool

  -- How `run_sqlite`, `run_duckdb` or `run_postgres` ends in the worker.
  pub data BackendRun : Type 0 where
    returned : RawRows → BackendRun
    out_of_memory : String → BackendRun
    raised : DbException → BackendRun

  -- What the worker puts on the queue.
  pub data Payload : Type 0 where
    ok_payload : RawRows → ℕ → Payload
    failed_payload : ErrorCode → String → String → ℕ → Payload

  -- `traceback` is the text of `traceback.format_exc()`.
  unfoldable pub worker_main : (String → String) → Backend → BackendRun → String → ℕ → Payload
  unfolding classify
  worker_main lower backend (returned raw) traceback elapsed = ok_payload raw elapsed
  worker_main lower backend (out_of_memory message) traceback elapsed =
      failed_payload ErrorCode.timeout ("memory limit exceeded: " <> message) traceback elapsed
  worker_main lower backend (raised e) traceback elapsed =
      failed_payload (classify lower backend e) e.text traceback elapsed

  -- What `proc.join(timeout_s)` and the queue show: the process still alive, gone without a
  -- report and with some `exitcode`, or gone with one.
  pub data ProcessEnd : Type 0 where
    alive : ProcessEnd
    gone_silently : Option ℤ → ProcessEnd
    reported : Payload → ProcessEnd

  unfoldable pub execute_isolated :
      DbRef → String → ℕ → ℕ → ℕ → ProcessEnd → Result Exception (ExecOutcome d)
  unfolding failure success
  execute_isolated ref sql row_limit timeout_s elapsed alive =
      failure d ErrorCode.timeout sql ref.db_id elapsed
        (some "query exceeded the wall-clock timeout and was killed") none
        (backend_context ref ++ ("timeout_s", number timeout_s) ∷ [])
  execute_isolated ref sql row_limit timeout_s elapsed (gone_silently exitcode) =
      failure d ErrorCode.harness_internal sql ref.db_id elapsed
        (some "worker process exited without reporting a result") none
        (backend_context ref ++ ("exitcode", exit_value exitcode) ∷ [])
  execute_isolated ref sql row_limit timeout_s elapsed (reported (ok_payload raw worker_elapsed)) =
      ok (
        success d sql ref.db_id worker_elapsed
          (record {
            columns = raw.columns;
            rows = raw.rows;
            truncated = raw.has_more;
            row_limit = row_limit;
            rows_scanned = if raw.has_more then none else some (length raw.rows);
          })
          (backend_context ref))
  execute_isolated ref sql row_limit timeout_s elapsed
        (reported (failed_payload code message trace worker_elapsed)) =
      failure d code sql ref.db_id worker_elapsed (some message) (some trace) (backend_context ref)

  pub record SqlTask : Type 0 where
    pub task_id : String
    pub ref : DbRef
    pub sql : String

  -- The loop over the futures, in the order of the tasks; `run` is `execute_isolated` of a task.
  unfoldable pub execute_many :
      (SqlTask → Result Exception (ExecOutcome d))
      → List SqlTask
      → Dict (ExecOutcome d)
      → Result Exception (Dict (ExecOutcome d))
  execute_many run [] results = ok results
  execute_many run (task ∷ tasks) results =
      run task >>= λ o. execute_many run tasks (insert task.task_id o results)

  -- What becomes of the worker: killed at the timeout, gone without a report, or through its main.
  pub data WorkerFate : Type 0 where
    killed : WorkerFate
    crashed : Option ℤ → WorkerFate
    ran : BackendRun → WorkerFate

  abbrev pub process_end : (String → String) → Backend → String → ℕ → WorkerFate → ProcessEnd
  process_end lower backend traceback elapsed killed = alive
  process_end lower backend traceback elapsed (crashed exitcode) = gone_silently exitcode
  process_end lower backend traceback elapsed (ran run) =
      reported (worker_main lower backend run traceback elapsed)
