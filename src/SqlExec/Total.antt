-- ===== src/SqlExec/Total.antt =====
-- sqlexec/sandbox.py: every execution has an outcome, with a code of the right kind.
use model_hub.Prelude.{
  ℕ, ◌≡◌, ◌⊎◌, inl, inr, refl, Bool, true, false, Option, some, String, Result, ok, arith,
  Bool-cases,
}
use model_hub.Prelude.Dict.{Dict}
use model_hub.Common.Errors.{ErrorCode, Exception, ContextValue, is_exec_ok}
use model_hub.Compare.Values.{Doubles}
use model_hub.Compare.Comparator.{ResultSet}
use model_hub.SqlExec.Outcomes.{ExecOutcome, success, failure}
use model_hub.SqlExec.Backends.{
  Backend, DbRef, DbException, ExceptionClass, classify_operational, classify_sqlite_exception,
  classify_duckdb_exception, classify_postgres_exception, is_read_only_text,
}
use model_hub.SqlExec.Sandbox.{
  classify, worker_main, returned, out_of_memory, raised, execute_isolated, WorkerFate, killed,
  crashed, ran, process_end,
}

-- The codes of an execution that failed.
abbrev pub is_failure_code : ErrorCode → Bool
is_failure_code ErrorCode.syntax = true
is_failure_code ErrorCode.semantic = true
is_failure_code ErrorCode.timeout = true
is_failure_code ErrorCode.unsafe_statement = true
is_failure_code ErrorCode.harness_db_unavailable = true
is_failure_code ErrorCode.harness_internal = true
is_failure_code ErrorCode.unclassified = true
is_failure_code _ = false

operational-is_failure_code : (lower : String) → is_failure_code (classify_operational lower) ≡ true
unfolding classify_operational
operational-is_failure_code lower = ground arith

module _ (lower : String → String) where
  sqlite-is_failure_code :
      (c : ExceptionClass) (text : String)
      → is_failure_code (classify_sqlite_exception lower (record { class = c; text = text })) ≡ true
  unfolding classify_sqlite_exception
  sqlite-is_failure_code c text = ground (arith, operational-is_failure_code (lower text))

  duckdb-is_failure_code :
      (c : ExceptionClass) (text : String)
      → is_failure_code (classify_duckdb_exception lower (record { class = c; text = text })) ≡ true
  unfolding classify_duckdb_exception
  duckdb-is_failure_code c text = elim (Bool-cases (is_read_only_text (lower text))) [
    | inl e ↦ rw e refl
    | inr e ↦ rw e (ground arith)
  ]

  postgres-is_failure_code :
      (c : ExceptionClass) (text : String)
      → is_failure_code (classify_postgres_exception (record { class = c; text = text })) ≡ true
  unfolding classify_postgres_exception
  postgres-is_failure_code c text = ground arith

  classify-is_failure_code :
      (b : Backend) (e : DbException) → is_failure_code (classify lower b e) ≡ true
  unfolding classify
  classify-is_failure_code Backend.sqlite e = sqlite-is_failure_code e.class e.text
  classify-is_failure_code Backend.duckdb e = duckdb-is_failure_code e.class e.text
  classify-is_failure_code Backend.postgres e = postgres-is_failure_code e.class e.text

module _ (d : Doubles) where
  -- EXEC_OK with a result, or the code of a failure.
  abbrev pub IsOutcome : ExecOutcome d → Type 0
  IsOutcome o =
      ((o.code ≡ ErrorCode.exec_ok) × ((r : ResultSet d) × (o.result ≡ some r)))
      ⊎ (is_failure_code o.code ≡ true)

  abbrev HasOutcome : Result Exception (ExecOutcome d) → Type 0
  HasOutcome r = (o : ExecOutcome d) × (r ≡ ok o) × IsOutcome o

  failure-HasOutcome :
      (code : ErrorCode) (sql db_id : String) (elapsed : ℕ) (message trace : Option String)
      (context : Dict ContextValue)
      → is_failure_code code ≡ true
      → HasOutcome (failure d code sql db_id elapsed message trace context)
  unfolding failure
  failure-HasOutcome code sql db_id elapsed message trace context h =
      let fails : is_exec_ok code ≡ false = ground arith in rw fails (_, refl, inr h)

  -- Whatever becomes of the worker and whatever the database does in it, an execution has an
  -- outcome: EXEC_OK with a result set, or the code of a failure; no exception escapes.
  pub execute_isolated-IsOutcome :
      (lower : String → String) (ref : DbRef) (sql trace : String) (row_limit timeout_s elapsed : ℕ)
      (fate : WorkerFate d)
      → (o : ExecOutcome d) × (execute_isolated d ref sql row_limit timeout_s elapsed
            (process_end d lower ref.backend trace elapsed fate)
          ≡ ok o)
        × IsOutcome o
  unfolding execute_isolated worker_main success failure
  execute_isolated-IsOutcome lower ref sql trace row_limit timeout_s elapsed killed =
      (_, refl, inr refl)
  execute_isolated-IsOutcome lower ref sql trace row_limit timeout_s elapsed (crashed code) =
      (_, refl, inr refl)
  execute_isolated-IsOutcome lower ref sql trace row_limit timeout_s elapsed (ran (returned raw)) =
      (_, refl, inl (refl, (_, refl)))
  execute_isolated-IsOutcome lower ref sql trace row_limit timeout_s elapsed
        (ran (out_of_memory text)) =
      (_, refl, inr refl)
  execute_isolated-IsOutcome lower ref sql trace row_limit timeout_s elapsed (ran (raised e)) =
      failure-HasOutcome (classify lower ref.backend e) sql ref.db_id elapsed (some e.text)
        (some trace) _ (classify-is_failure_code lower ref.backend e)
