-- ===== src/SqlExec/Backends.antt =====
-- sqlexec/backends.py: what the error code of a database exception is. An exception is its class,
-- as far as the code looks at it, with its text; `str.lower` is a parameter.
use model_hub.Prelude.{Bool, true, false, ◌||◌, none, some, List, [], ◌∷◌, String, if◌then◌else◌}
use text.Mathlib.Text.{find?}
use model_hub.Prelude.Counting.{any_if}
use model_hub.Common.Errors.{ErrorCode}

pub data Backend : Type 0 where
  sqlite duckdb postgres : Backend

pub record DbRef : Type 0 where
  pub backend : Backend
  pub db_id : String
  pub location : String
  pub attach_sqlite : Bool

-- The classes that the three classifiers tell apart.
pub data ExceptionClass : Type 0 where
  file_not_found : ExceptionClass
  sqlite_operational sqlite_programming : ExceptionClass
  duckdb_parser duckdb_syntax duckdb_catalog duckdb_binder duckdb_conversion : ExceptionClass
  duckdb_type_mismatch duckdb_io duckdb_connection duckdb_out_of_memory : ExceptionClass
  duckdb_internal duckdb_fatal : ExceptionClass
  pg_read_only pg_syntax pg_undefined_table pg_undefined_column pg_undefined_function :
      ExceptionClass
  pg_datatype_mismatch pg_ambiguous_column pg_ambiguous_function pg_operational : ExceptionClass
  other_class : ExceptionClass

pub record DbException : Type 0 where
  pub class : ExceptionClass
  pub text : String

-- `needle in text`
abbrev pub occurs_in : String → String → Bool
occurs_in needle text = elim (find? text needle) [ none ↦ false | some i ↦ true ]

abbrev sqlite_semantic_markers : List String
sqlite_semantic_markers =
    "no such table"
    ∷ ("no such column"
        ∷ ("no such function" ∷ ("ambiguous column name" ∷ ("datatype mismatch" ∷ []))))

abbrev sqlite_unavailable_markers : List String
sqlite_unavailable_markers = "unable to open database file" ∷ ("database is locked" ∷ [])

abbrev sqlite_internal_markers : List String
sqlite_internal_markers = "database disk image is malformed" ∷ []

-- `any(m in lower for m in markers)`
abbrev any_marker : List String → String → Bool
any_marker markers text = any_if (λ m. occurs_in m text) markers

-- The tests on the text of a `sqlite3.OperationalError`.
unfoldable pub classify_operational : String → ErrorCode
classify_operational lower =
    if occurs_in "readonly database" lower
    then ErrorCode.unsafe_statement
    else if occurs_in "syntax error" lower
    then ErrorCode.syntax
    else if any_marker sqlite_semantic_markers lower
    then ErrorCode.semantic
    else if any_marker sqlite_unavailable_markers lower
    then ErrorCode.harness_db_unavailable
    else if any_marker sqlite_internal_markers lower
    then ErrorCode.harness_internal
    else ErrorCode.unclassified

abbrev pub is_read_only_text : String → Bool
is_read_only_text lower = occurs_in "read-only" lower || occurs_in "readonly" lower

abbrev duckdb_code : ExceptionClass → ErrorCode
duckdb_code ExceptionClass.duckdb_parser = ErrorCode.syntax
duckdb_code ExceptionClass.duckdb_syntax = ErrorCode.syntax
duckdb_code ExceptionClass.duckdb_catalog = ErrorCode.semantic
duckdb_code ExceptionClass.duckdb_binder = ErrorCode.semantic
duckdb_code ExceptionClass.duckdb_conversion = ErrorCode.semantic
duckdb_code ExceptionClass.duckdb_type_mismatch = ErrorCode.semantic
duckdb_code ExceptionClass.duckdb_io = ErrorCode.harness_db_unavailable
duckdb_code ExceptionClass.duckdb_connection = ErrorCode.harness_db_unavailable
duckdb_code ExceptionClass.duckdb_out_of_memory = ErrorCode.timeout
duckdb_code ExceptionClass.duckdb_internal = ErrorCode.harness_internal
duckdb_code ExceptionClass.duckdb_fatal = ErrorCode.harness_internal
duckdb_code _ = ErrorCode.unclassified

unfoldable pub classify_postgres_exception : DbException → ErrorCode
classify_postgres_exception e = elim e.class [
  | pg_read_only ↦ ErrorCode.unsafe_statement
  | pg_syntax ↦ ErrorCode.syntax
  | pg_undefined_table ↦ ErrorCode.semantic
  | pg_undefined_column ↦ ErrorCode.semantic
  | pg_undefined_function ↦ ErrorCode.semantic
  | pg_datatype_mismatch ↦ ErrorCode.semantic
  | pg_ambiguous_column ↦ ErrorCode.semantic
  | pg_ambiguous_function ↦ ErrorCode.semantic
  | pg_operational ↦ ErrorCode.harness_db_unavailable
  | _ ↦ ErrorCode.unclassified
]

module _ (lower : String → String) where
  unfoldable pub classify_sqlite_exception : DbException → ErrorCode
  unfolding classify_operational
  classify_sqlite_exception e = elim e.class [
    | file_not_found ↦ ErrorCode.harness_db_unavailable
    | sqlite_operational ↦ classify_operational (lower e.text)
    | sqlite_programming ↦ ErrorCode.syntax
    | _ ↦ ErrorCode.unclassified
  ]

  unfoldable pub classify_duckdb_exception : DbException → ErrorCode
  classify_duckdb_exception e =
      if is_read_only_text (lower e.text) then ErrorCode.unsafe_statement else duckdb_code e.class
