-- ===== src/SqlExec/Outcomes.antt =====
-- sqlexec/outcomes.py.
use model_hub.Prelude.{ℕ, Bool, Option, none, some, String, Result, ok, err, if◌then◌else◌}
use model_hub.Prelude.Dict.{Dict}
use model_hub.Common.Errors.{ErrorCode, ContextValue, Exception, value_error, is_exec_ok}
use model_hub.Compare.Values.{Doubles}
use model_hub.Compare.Comparator.{ResultSet}

module _ (d : Doubles) where
  pub record ExecOutcome : Type 0 where
    pub code : ErrorCode
    pub sql : String
    pub db_id : String
    pub elapsed : ℕ
    pub result : Option (ResultSet d)
    pub error_message : Option String
    pub error_traceback : Option String
    pub context : Dict ContextValue

  -- The property `ok`.
  abbrev pub succeeded : ExecOutcome → Bool
  succeeded o = is_exec_ok o.code

  unfoldable pub success : String → String → ℕ → ResultSet d → Dict ContextValue → ExecOutcome
  success sql db_id elapsed result context = record {
    code = ErrorCode.exec_ok;
    sql = sql;
    db_id = db_id;
    elapsed = elapsed;
    result = some result;
    error_message = none;
    error_traceback = none;
    context = context;
  }

  unfoldable pub failure :
      ErrorCode
      → String
      → String
      → ℕ
      → Option String
      → Option String
      → Dict ContextValue
      → Result Exception ExecOutcome
  failure code sql db_id elapsed error_message error_traceback context =
      if is_exec_ok code
      then err value_error
      else ok (record {
        code = code;
        sql = sql;
        db_id = db_id;
        elapsed = elapsed;
        result = none;
        error_message = error_message;
        error_traceback = error_traceback;
        context = context;
      })
