-- ===== src/Eval/Runner/Classified.antt =====
-- eval/runner.py with sqlexec/ before it and train/ after it: what becomes of one sample.
use model_hub.Prelude.{
  ℕ, ◌≡◌, ◌⊎◌, inl, inr, refl, Bool, true, false, Option, none, some, String, Result, ok, err,
  ok-injective, arith, Yields, Yields-ok, Bool-cases,
}
use mathlib.Core.Path.{subst}
use model_hub.Data.Hashing.{TextLibrary}
use model_hub.Eval.GoldCache.{
  Json, Cache, cache_key, db_file_hash, read_cached, write_cached, after_write, execute_and_write,
  by_cached, get_or_execute,
}
use model_hub.Common.Errors.{ErrorCode, Exception}
use model_hub.Compare.Values.{Doubles, ComparatorConfig}
use model_hub.Data.Schema.{NormalizedSample}
use model_hub.SqlExec.Outcomes.{ExecOutcome, succeeded}
use model_hub.SqlExec.Backends.{DbRef}
use model_hub.SqlExec.Sandbox.{execute_isolated, WorkerFate, process_end}
use model_hub.SqlExec.Total.{IsOutcome, is_failure_code, execute_isolated-IsOutcome}
use model_hub.Eval.Records.{PredictionRecord, FinishReason, stop, length_limit}
use model_hub.Eval.Runner.{Generation, judged, run_one_sample}
use model_hub.Train.Dpo
use model_hub.Train.Dpo.{
  ClassifiedCandidate, classified, classify_prediction, is_unclassified, is_exec_failed,
}

-- The codes that a prediction record can have.
abbrev is_record_code : ErrorCode → Bool
is_record_code ErrorCode.exec_ok = true
is_record_code ErrorCode.output_truncated = true
is_record_code code = is_failure_code code

failure_is_record_code :
    (code : ErrorCode) → is_failure_code code ≡ true → is_record_code code ≡ true
failure_is_record_code code h = ground arith

classify_prediction-Yields :
    (q : String) (i : ℕ) (p : PredictionRecord)
    → is_record_code p.exec_code ≡ true
    → Yields (λ c. Unit {0}) (classify_prediction q i p)
unfolding classify_prediction classified Dpo.post_init
classify_prediction-Yields q i p h = ground arith

classify_prediction_record :
    (q : String) (i : ℕ) (p : PredictionRecord)
    → is_record_code p.exec_code ≡ true
    → (c : ClassifiedCandidate) × (classify_prediction q i p ≡ ok c)
classify_prediction_record q i p h =
    let (c, e, u) =
      Yields-ok (λ c. Unit {0}) (classify_prediction q i p) (classify_prediction-Yields q i p h) in
    (c, e)

module _ (d : Doubles) (t : TextLibrary) (j : Json d) where
  failed :
      (o : ExecOutcome d) → IsOutcome d o → succeeded d o ≡ false → is_failure_code o.code ≡ true
  failed o (inl (e, r)) h = absurd (ground arith)
  failed o (inr k) h = k

  -- Every outcome in the cache is one that an execution can have.
  abbrev pub HoldsOutcomes : Cache d j → Type 0
  HoldsOutcomes cache =
      (k : String) (o : ExecOutcome d) → read_cached d j cache k ≡ ok (some o) → IsOutcome d o

  after_write-IsOutcome :
      (cache : Cache d j) (gold o : ExecOutcome d) (w : Result Exception (Cache d j))
      → IsOutcome d gold
      → (after_write d j cache gold w).0 ≡ ok o
      → IsOutcome d o
  unfolding after_write
  after_write-IsOutcome cache gold o (ok cache') h e = subst (IsOutcome d) (ok-injective e) h
  after_write-IsOutcome cache gold o (err x) h e = cc

  by_cached-IsOutcome :
      (cache : Cache d j) (key : String) (gold o : ExecOutcome d)
      (stored : Result Exception (Unit {0})) (read : Result Exception (Option (ExecOutcome d)))
      → ((c : ExecOutcome d) → read ≡ ok (some c) → IsOutcome d c)
      → IsOutcome d gold
      → (by_cached d j read key (ok gold) stored cache).0 ≡ ok o
      → IsOutcome d o
  unfolding by_cached execute_and_write
  by_cached-IsOutcome cache key gold o stored (err x) holds h e = cc
  by_cached-IsOutcome cache key gold o stored (ok (some c)) holds h e =
      subst (IsOutcome d) (ok-injective e) (holds c refl)
  by_cached-IsOutcome cache key gold o stored (ok none) holds h e =
      after_write-IsOutcome cache gold o (write_cached d j cache key gold stored) h e

  get_or_execute-IsOutcome :
      (db_id gold_sql : String) (content : Option String) (gold o : ExecOutcome d)
      (stored : Result Exception (Unit {0})) (cache : Cache d j)
      → HoldsOutcomes cache
      → IsOutcome d gold
      → (get_or_execute d j t db_id gold_sql content (ok gold) stored cache).0 ≡ ok o
      → IsOutcome d o
  unfolding get_or_execute
  get_or_execute-IsOutcome db_id gold_sql none gold o stored cache holds h e = cc
  get_or_execute-IsOutcome db_id gold_sql (some content) gold o stored cache holds h e =
      let key = cache_key t db_id gold_sql (db_file_hash t content) in
      by_cached-IsOutcome cache key gold o stored (read_cached d j cache key) (holds key) h e

  module _ (sample : NormalizedSample) (config : ComparatorConfig d) where
    abbrev IsRecord : PredictionRecord → Type 0
    IsRecord p = (p.sample_id ≡ sample.sample_id) × (is_record_code p.exec_code ≡ true)

    judged-IsRecord :
        (generation : Generation) (predicted gold : ExecOutcome d) (elapsed : ℕ)
        → succeeded d predicted ≡ true
        → IsOutcome d predicted
        → IsOutcome d gold
        → Yields IsRecord (judged d t sample generation predicted (ok gold) config elapsed)
    unfolding judged
    judged-IsRecord generation predicted gold elapsed ran (inl (e, (r, f))) (inl (e', (r', f'))) =
        ground arith
    judged-IsRecord generation predicted gold elapsed ran (inl (e, (r, f))) (inr b) = ground arith
    judged-IsRecord generation predicted gold elapsed ran (inr a) b = absurd (ground arith)

    -- A record, or the exception of the gold cache after the predicted SQL ran.
    abbrev pub RecordOr :
        Result Exception (ExecOutcome d) → Result Exception PredictionRecord → Type 0
    RecordOr served r =
        ((p : PredictionRecord) × (r ≡ ok p) × IsRecord p)
        ⊎ ((x : Exception) × (r ≡ err x) × (served ≡ err x))

    judged-RecordOr :
        (generation : Generation) (predicted : ExecOutcome d) (elapsed : ℕ)
        (served : Result Exception (ExecOutcome d))
        → succeeded d predicted ≡ true
        → IsOutcome d predicted
        → ((o : ExecOutcome d) → served ≡ ok o → IsOutcome d o)
        → RecordOr served (judged d t sample generation predicted served config elapsed)
    unfolding judged
    judged-RecordOr generation predicted elapsed (err x) ran a b = inr (x, refl, refl)
    judged-RecordOr generation predicted elapsed (ok gold) ran a b = inl (
        Yields-ok IsRecord (judged d t sample generation predicted (ok gold) config elapsed)
          (judged-IsRecord generation predicted gold elapsed ran a (b gold refl)))

    run_one_sample-RecordOr :
        (generation : Generation) (predicted gold : ExecOutcome d) (content : Option String)
        (stored : Result Exception (Unit {0})) (elapsed : ℕ) (cache : Cache d j)
        → IsOutcome d predicted
        → IsOutcome d gold
        → HoldsOutcomes cache
        → RecordOr
            (get_or_execute d j t sample.db_id sample.gold_sql content (ok gold) stored cache).0
            (run_one_sample d t j sample generation
              (ok predicted)
              content
              (ok gold)
              stored
              config
              elapsed
              cache).0
    unfolding run_one_sample
    run_one_sample-RecordOr generation predicted gold content stored elapsed cache a b holds =
        by_reason generation.finish_reason refl
      where
        by_reason :
            (reason : FinishReason)
            → generation.finish_reason ≡ reason
            → RecordOr
                (get_or_execute d j t sample.db_id sample.gold_sql content (ok gold) stored cache).0
                (run_one_sample d t j sample generation
                  (ok predicted)
                  content
                  (ok gold)
                  stored
                  config
                  elapsed
                  cache).0
        by_reason length_limit e = rw (e, run_one_sample) (inl (_, refl, (refl, refl)))
        by_reason stop e = elim (Bool-cases (succeeded d predicted)) [
          | inr n ↦
              rw (e, run_one_sample, n)
                (inl
                  (_, refl, (refl, failure_is_record_code predicted.code (failed predicted a n))))
          | inl y ↦
              rw (e, run_one_sample, y)
                (judged-RecordOr generation predicted elapsed
                  (get_or_execute d j t sample.db_id sample.gold_sql content (ok gold) stored
                    cache).0
                  y a
                  (λ o k.
                    get_or_execute-IsOutcome sample.db_id sample.gold_sql content gold o stored
                      cache holds b k))
        ]

-- Whatever the model answers, whatever becomes of the two workers and whatever the databases do in
-- them, with a gold cache that holds outcomes of executions, a sample is evaluated to a record of its
-- own id, which is classified for preference data, or the evaluation raises the exception that the
-- gold cache raised, for a result that is no JSON, a file that is not stored or a database file that
-- cannot be read: no other exception escapes on the way.
pub run_one_sample-classify_prediction :
    (d : Doubles) (t : TextLibrary) (j : Json d) (sample : NormalizedSample)
    (config : ComparatorConfig d) (generation : Generation) (ref : DbRef) (trace : String)
    (row_limit timeout_s elapsed : ℕ) (predicted_fate gold_fate : WorkerFate d)
    (content : Option String) (stored : Result Exception (Unit {0})) (cache : Cache d j) (i : ℕ)
    → HoldsOutcomes d t j cache
    → let predicted =
        execute_isolated d ref generation.text row_limit timeout_s elapsed
          (process_end d t.lower ref.backend trace elapsed predicted_fate) in
      let gold =
        execute_isolated d ref sample.gold_sql row_limit timeout_s elapsed
          (process_end d t.lower ref.backend trace elapsed gold_fate) in
      let run =
        run_one_sample d t j sample generation predicted content gold stored config elapsed cache in
      ((p : PredictionRecord) × (c : ClassifiedCandidate) × (run.0 ≡ ok p)
        × (p.sample_id ≡ sample.sample_id)
        × (classify_prediction sample.sample_id i p ≡ ok c))
      ⊎ ((x : Exception) × (run.0 ≡ err x)
          × ((get_or_execute d j t sample.db_id sample.gold_sql content gold stored cache).0
              ≡ err x))
run_one_sample-classify_prediction d t j sample config generation ref trace row_limit timeout_s
      elapsed pf gf content stored cache i holds =
    let (predicted, e, a) =
      execute_isolated-IsOutcome d t.lower ref generation.text trace row_limit timeout_s elapsed
        pf in
    let (gold, f, b) =
      execute_isolated-IsOutcome d t.lower ref sample.gold_sql trace row_limit timeout_s elapsed
        gf in
    rw (e, f)
      (elim (run_one_sample-RecordOr d t j sample config generation predicted gold content stored
        elapsed cache a b holds) [
          | inl (p, made, (same, code)) ↦
              let (c, w) = classify_prediction_record sample.sample_id i p code in
              inl (p, c, made, same, w)
          | inr raised ↦ inr raised
        ])
