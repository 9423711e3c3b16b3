-- ===== src/Eval/GoldCache.antt =====
-- eval/gold_cache.py. The cache directory is a dict from a key to a file's text. JSON is a parameter
-- with a law for rows of cells that it keeps: None, numbers, texts, and what else `json_keeps` names.
-- A database file is its bytes as a text, or none where it cannot be opened; how an execution of the
-- gold SQL ends, and how the atomic write of a file ends, are arguments.
pub mod RoundTrip
use model_hub.Prelude.{
  ℕ, ◌≡◌, Bool, true, false, Option, none, some, List, [], ◌∷◌, ◌&&◌, map, String, ◌<>◌, Result, ok,
  err, ◌>>=◌,
}
use model_hub.Prelude.Dict.{Dict, lookup, insert}
use model_hub.Common.Errors.{ErrorCode, Exception, ContextValue, other_error}
use model_hub.Compare.Values.{Doubles, Value, other}
use model_hub.Compare.Comparator.{Row, ResultSet}
use model_hub.Data.Hashing.{TextLibrary, sql_hash}
use model_hub.SqlExec.Outcomes.{ExecOutcome}

unfoldable pub db_file_hash : TextLibrary → String → String
db_file_hash t content = t.sha256_hex content

unfoldable pub cache_key : TextLibrary → String → String → String → String
cache_key t db_id gold_sql db_hash =
    t.sha256_hex (db_id <> ("\u{1f}" <> (sql_hash t gold_sql <> ("\u{1f}" <> db_hash))))

module _ (d : Doubles) where
  pub record ResultPayload : Type 0 where
    pub columns : List String
    pub rows : List (Row d)
    pub truncated : Bool
    pub row_limit : ℕ
    pub rows_scanned : Option ℕ

  -- The dict that is dumped.
  pub record OutcomePayload : Type 0 where
    pub code : ErrorCode
    pub sql : String
    pub db_id : String
    pub elapsed : ℕ
    pub result : Option ResultPayload
    pub error_message : Option String
    pub error_traceback : Option String
    pub context : Dict ContextValue

  abbrev pub keeps_value : Value d → Bool
  keeps_value (other o) = d.json_keeps o
  keeps_value _ = true

  abbrev pub keeps_row : Row d → Bool
  keeps_row [] = true
  keeps_row (v ∷ vs) = keeps_value v && keeps_row vs

  abbrev pub keeps_rows : List (Row d) → Bool
  keeps_rows [] = true
  keeps_rows (r ∷ rs) = keeps_row r && keeps_rows rs

  -- Every cell of the result is one that JSON keeps.
  abbrev pub keeps_result : Option ResultPayload → Bool
  keeps_result none = true
  keeps_result (some r) = keeps_rows r.rows

  pub record Json : Type 1 where
    pub Text : Type 0
    pub dumps : OutcomePayload → Result Exception Text
    pub loads : Text → Result Exception OutcomePayload
    pub loads-dumps :
        (p : OutcomePayload)
        → keeps_result p.result ≡ true
        → (t : Text) × (dumps p ≡ ok t) × (loads t ≡ ok p)

  abbrev pub dump_result : Option (ResultSet d) → Option ResultPayload
  dump_result none = none
  dump_result (some r) = some (record {
    columns = r.columns;
    rows = r.rows;
    truncated = r.truncated;
    row_limit = r.row_limit;
    rows_scanned = r.rows_scanned;
  })

  abbrev pub load_result : Option ResultPayload → Option (ResultSet d)
  load_result none = none
  load_result (some r) = some (record {
    columns = r.columns;
    rows = r.rows;
    truncated = r.truncated;
    row_limit = r.row_limit;
    rows_scanned = r.rows_scanned;
  })

  module _ (j : Json) where
    abbrev pub Cache : Type 0
    Cache = Dict j.Text

    abbrev pub outcome_of_payload : OutcomePayload → ExecOutcome d
    outcome_of_payload payload = record {
      code = payload.code;
      sql = payload.sql;
      db_id = payload.db_id;
      elapsed = payload.elapsed;
      result = load_result payload.result;
      error_message = payload.error_message;
      error_traceback = payload.error_traceback;
      context = payload.context;
    }

    abbrev pub payload_of : ExecOutcome d → OutcomePayload
    payload_of outcome = record {
      code = outcome.code;
      sql = outcome.sql;
      db_id = outcome.db_id;
      elapsed = outcome.elapsed;
      result = dump_result outcome.result;
      error_message = outcome.error_message;
      error_traceback = outcome.error_traceback;
      context = outcome.context;
    }

    -- The outcome of a file's text, where there is a file.
    abbrev pub load_cached : Option j.Text → Result Exception (Option (ExecOutcome d))
    load_cached none = ok none
    load_cached (some text) = j.loads text >>= λ payload. ok (some (outcome_of_payload payload))

    unfoldable pub read_cached : Cache → String → Result Exception (Option (ExecOutcome d))
    read_cached cache key = load_cached (lookup key cache)

    -- `stored` is how `atomic_write_text` ends.
    unfoldable pub write_cached :
        Cache → String → ExecOutcome d → Result Exception (Unit {0}) → Result Exception Cache
    write_cached cache key outcome stored =
        j.dumps (payload_of outcome) >>= λ text. stored >>= λ u. ok (insert key text cache)

    unfoldable pub after_write :
        Cache → ExecOutcome d → Result Exception Cache → Result Exception (ExecOutcome d) × Cache
    after_write cache outcome (ok cache') = (ok outcome, cache')
    after_write cache outcome (err e) = (err e, cache)

    -- Where no outcome was cached: the execution, and the file written.
    unfoldable pub execute_and_write :
        String
        → Result Exception (ExecOutcome d)
        → Result Exception (Unit {0})
        → Cache
        → Result Exception (ExecOutcome d) × Cache
    unfolding after_write write_cached
    execute_and_write key (err e) stored cache = (err e, cache)
    execute_and_write key (ok outcome) stored cache =
        after_write cache outcome (write_cached cache key outcome stored)

    unfoldable pub by_cached :
        Result Exception (Option (ExecOutcome d))
        → String
        → Result Exception (ExecOutcome d)
        → Result Exception (Unit {0})
        → Cache
        → Result Exception (ExecOutcome d) × Cache
    unfolding execute_and_write
    by_cached (err e) key executed stored cache = (err e, cache)
    by_cached (ok (some cached)) key executed stored cache = (ok cached, cache)
    by_cached (ok none) key executed stored cache = execute_and_write key executed stored cache

    -- A file that cannot be opened raises an OSError.
    unfoldable pub get_or_execute :
        TextLibrary
        → String
        → String
        → Option String
        → Result Exception (ExecOutcome d)
        → Result Exception (Unit {0})
        → Cache
        → Result Exception (ExecOutcome d) × Cache
    unfolding read_cached by_cached cache_key db_file_hash
    get_or_execute t db_id gold_sql none executed stored cache = (err other_error, cache)
    get_or_execute t db_id gold_sql (some content) executed stored cache =
        let key = cache_key t db_id gold_sql (db_file_hash t content) in
        by_cached (read_cached cache key) key executed stored cache
