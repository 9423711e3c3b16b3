-- ===== src/Common/Errors.antt =====
-- common/errors.py: error codes, stages and the exceptions that the modelled code raises.
-- The text of a message is left out; the context is kept, since callers read it.
use model_hub.Prelude.{ℕ, Bool, true, false, List, String}
use model_hub.Prelude.Dict.{Dict}
use model_hub.Prelude.Int.{ℤ}

pub data Stage : Type 0 where
  data_stage exec compare_stage eval train serve gate release : Stage

pub data ErrorCode : Type 0 where
  syntax semantic timeout exec_ok output_truncated : ErrorCode
  harness_db_unavailable harness_internal : ErrorCode
  unclassified : ErrorCode
  config_invalid io_atomic_write_failed run_polluted : ErrorCode
  unsafe_statement data_split_leak report_required_field_missing : ErrorCode
  auth_invalid_api_key rate_limit_exceeded quota_exceeded circuit_breaker_open : ErrorCode

pub ErrorCode-discrete : Discrete ErrorCode
ErrorCode-discrete = hlevel

-- The subclasses of `ModelHubError`, and the base class itself.
pub data ErrorClass : Type 0 where
  base_error config_error manifest_error report_error gateway_error : ErrorClass

-- What a context dictionary holds.
pub data ContextValue : Type 0 where
  text : String → ContextValue
  number : ℕ → ContextValue
  texts : List String → ContextValue
  signed : ℤ → ContextValue
  missing : ContextValue

pub record ModelHubError : Type 0 where
  pub error_class : ErrorClass
  pub code : ErrorCode
  pub stage : Stage
  pub context : Dict ContextValue
  pub retryable : Bool

-- `fastapi.HTTPException` with the value of its Retry-After header.
pub record HttpException : Type 0 where
  pub status_code : ℕ
  pub retry_after : List ℕ

-- Any exception. `other_error` is whatever code that is not modelled raises.
pub data Exception : Type 0 where
  hub_error : ModelHubError → Exception
  http_error : HttpException → Exception
  value_error assertion_error other_error : Exception

-- `SQL_MODEL_ERROR_CODES`
abbrev pub is_model_error : ErrorCode → Bool
is_model_error ErrorCode.syntax = true
is_model_error ErrorCode.semantic = true
is_model_error ErrorCode.timeout = true
is_model_error _ = false

-- `SQL_SYSTEM_ERROR_CODES`
abbrev pub is_system_error : ErrorCode → Bool
is_system_error ErrorCode.harness_db_unavailable = true
is_system_error ErrorCode.harness_internal = true
is_system_error _ = false

abbrev pub is_exec_ok : ErrorCode → Bool
is_exec_ok ErrorCode.exec_ok = true
is_exec_ok _ = false
