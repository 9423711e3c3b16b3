-- ===== src/Eval/Runner.antt =====
-- eval/runner.py. The model's answer, how the executions end and the clock are arguments of one
-- sample; the predictions file is in RecordFile.
pub mod Resume
pub mod Classified
use model_hub.Prelude.{
  ℕ, Bool, true, false, not, Option, none, some, List, [], ◌∷◌, ◌++◌, map, String, Result, ok, err,
  ◌>>=◌, if◌then◌else◌,
}
use model_hub.Prelude.Counting.{filter_if}
use model_hub.Prelude.Dict.{Dict, contains}
use model_hub.Common.Errors.{ErrorCode, Exception, assertion_error}
use model_hub.Compare.Types.{ComparisonResult, UndecidableReason, gold_exec_failed}
use model_hub.Compare.Values.{Doubles, ComparatorConfig, RowOrder}
use model_hub.Compare.Comparator.{ResultSet, compare_result_sets}
use model_hub.Data.Schema.{NormalizedSample}
use model_hub.Data.Hashing.{TextLibrary}
use model_hub.Eval.GoldCache.{Json, Cache, get_or_execute}
use model_hub.Eval.RecordFile.{Text, RecordJson, persisted, load_existing}
use model_hub.SqlExec.Outcomes.{ExecOutcome, succeeded}
use model_hub.SqlExec.Backends.{occurs_in}
use model_hub.Eval.Records.{PredictionRecord, FinishReason, stop, length_limit}

-- `"order by" in gold_sql.lower()`, with `str.lower` a parameter.
unfoldable pub resolve_row_order : (String → String) → String → RowOrder
resolve_row_order lower gold_sql =
    if occurs_in "order by" (lower gold_sql) then RowOrder.ordered else RowOrder.unordered

-- A `GenerationResult`, as far as the runner reads it.
pub record Generation : Type 0 where
  pub text : String
  pub finish_reason : FinishReason

abbrev pub record_of :
    NormalizedSample
    → Generation
    → FinishReason
    → ErrorCode
    → Option ComparisonResult
    → Option UndecidableReason
    → ℕ
    → PredictionRecord
record_of sample generation finish_reason exec_code comparison_result undecidable_reason elapsed =
    record {
      sample_id = sample.sample_id;
      db_id = sample.db_id;
      difficulty = sample.difficulty;
      predicted_sql = generation.text;
      finish_reason = finish_reason;
      exec_code = exec_code;
      comparison_result = comparison_result;
      undecidable_reason = undecidable_reason;
      elapsed = elapsed;
    }

module _ (d : Doubles) (t : TextLibrary) where
  -- The two assertions that a result is there, and the comparison.
  abbrev compared :
      NormalizedSample
      → Generation
      → ExecOutcome d
      → ExecOutcome d
      → ComparatorConfig d
      → ℕ
      → Result Exception PredictionRecord
  compared sample generation predicted gold config elapsed = elim predicted.result [
    | none ↦ err assertion_error
    | some p ↦ elim gold.result [
      | none ↦ err assertion_error
      | some g ↦
          let comparison =
            compare_result_sets d p g
              (record config { row_order = resolve_row_order t.lower sample.gold_sql }) in
          ok (
            record_of sample generation stop ErrorCode.exec_ok (some comparison.result)
              comparison.reason elapsed)
    ]
  ]

  -- The record of a sample whose predicted SQL ran, by what the gold cache gave.
  unfoldable pub judged :
      NormalizedSample
      → Generation
      → ExecOutcome d
      → Result Exception (ExecOutcome d)
      → ComparatorConfig d
      → ℕ
      → Result Exception PredictionRecord
  judged sample generation predicted (err e) config elapsed = err e
  judged sample generation predicted (ok gold) config elapsed =
      if not (succeeded d gold)
      then ok (
          record_of sample generation stop ErrorCode.exec_ok (some ComparisonResult.undecidable)
            (some gold_exec_failed) elapsed)
      else compared sample generation predicted gold config elapsed

  module _ (j : Json d) where
    -- `run_one_sample` by the model's answer, and how the execution of the predicted SQL, of the gold
    -- SQL and the write of the cached outcome end; `content` is the database file's.
    unfoldable pub run_one_sample :
        NormalizedSample
        → Generation
        → Result Exception (ExecOutcome d)
        → Option String
        → Result Exception (ExecOutcome d)
        → Result Exception (Unit {0})
        → ComparatorConfig d
        → ℕ
        → Cache d j
        → Result Exception PredictionRecord × Cache d j
    unfolding judged
    run_one_sample sample generation predicted content gold stored config elapsed cache =
        elim generation.finish_reason [
          | length_limit ↦ (
            ok (
                record_of sample generation length_limit ErrorCode.output_truncated none none
                  elapsed),
            cache,
          )
          | stop ↦ elim predicted [
            | err e ↦ (err e, cache)
            | ok outcome ↦
                if not (succeeded d outcome)
                then (ok (record_of sample generation stop outcome.code none none elapsed), cache)
                else let (served, cache') =
                    get_or_execute d j t sample.db_id sample.gold_sql content gold stored cache in
                  (judged sample generation outcome served config elapsed, cache')
          ]
        ]

abbrev pub dict_values : Dict PredictionRecord → List PredictionRecord
dict_values existing = map (λ (k, r). r) existing

module _ (j : RecordJson) where
  -- The loop over the pending samples: the records so far, and the file, which is written after each
  -- sample. `predict` is `run_one_sample` with the prompt and the model of the sample.
  unfoldable pub run_pending :
      (NormalizedSample → Result Exception PredictionRecord)
      → List NormalizedSample
      → List PredictionRecord
      → Text
      → Result Exception (List PredictionRecord) × Text
  run_pending predict [] records file = (ok records, file)
  run_pending predict (sample ∷ pending) records file = elim (predict sample) [
    | err e ↦ (err e, file)
    | ok r ↦ run_pending predict pending (records ++ r ∷ []) (persisted j (records ++ r ∷ []))
  ]

  -- `run_eval` on the file that an earlier run left; with it the file afterwards.
  unfoldable pub run_eval :
      (NormalizedSample → Result Exception PredictionRecord)
      → List NormalizedSample
      → Text
      → Result Exception (List PredictionRecord) × Text
  unfolding run_pending
  run_eval predict samples file = elim (load_existing j file) [
    | err e ↦ (err e, file)
    | ok existing ↦
        run_pending predict (filter_if (λ s. not (contains s.sample_id existing)) samples)
          (dict_values existing) file
  ]

  unfoldable pub load_predictions : Text → Result Exception (List PredictionRecord)
  load_predictions file = load_existing j file >>= λ existing. ok (dict_values existing)
