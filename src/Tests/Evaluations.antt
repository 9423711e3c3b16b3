-- ===== src/Tests/Evaluations.antt =====
-- Datasets, the gold cache and the evaluation runner on a few samples.
use model_hub.Prelude.{
  ◌+◌, ◌≡◌, ◌⊎◌, refl, true, false, Option, none, some, List, [], ◌∷◌, map, String, Result, ok, err,
  str_eq, if◌then◌else◌,
}
use model_hub.Common.Errors.{ErrorCode, Exception, other_error}
use model_hub.Compare.Types.{ComparisonResult}
use model_hub.Compare.Comparator.{ResultSet}
use model_hub.Data.Schema.{NormalizedSample, Source, Split, Dialect}
use model_hub.Data.Hashing.{TextLibrary, normalize_text_for_hash}
use model_hub.Data.Dedup.{dedup_samples}
use model_hub.Data.Pipeline.{
  DataBuildReport, build_dataset_version, build_dataset_version_lem, gold_summary_of,
}
use model_hub.SqlExec.Outcomes.{ExecOutcome}
use model_hub.SqlExec.Backends.{Backend, DbRef, DbException, ExceptionClass}
use model_hub.SqlExec.Sandbox.{execute_isolated, process_end, ran, raised, killed}
use model_hub.Eval.Records.{PredictionRecord, stop}
use model_hub.Eval.GoldCache.{Json, Cache, keeps_result, read_cached, write_cached, get_or_execute}
use model_hub.Eval.RecordFile.{RecordJson, persisted}
use model_hub.Eval.GoldCache.RoundTrip.{
  GoldRequest, serve, serve_all, answer, serve_all-uncached, serve_first_outcome,
  read_cached-write_cached,
}
use model_hub.Eval.Runner.{Generation, run_one_sample, run_eval}
use model_hub.Eval.Runner.Resume.{DistinctIds, run_eval_resumes}
use model_hub.Eval.Runner.Classified.{HoldsOutcomes, run_one_sample-classify_prediction}
use model_hub.Train.Dpo.{ClassifiedCandidate, classify_prediction}
use model_hub.Tests.Comparisons.{whole_numbers, by_default}

-- Texts are their own hashes; the only capital letters are those of one statement.
abbrev plain_texts : TextLibrary
plain_texts = record {
  collapse_whitespace = λ s. s;
  strip = λ s. s;
  lower = λ s. if str_eq s "SELECT 'Ann'" then "select 'ann'" else s;
  sha256_hex = λ s. s;
}

abbrev asked : String → String → Split → NormalizedSample
asked id question split = record {
  sample_id = id;
  db_id = "shop";
  question = question;
  evidence = none;
  gold_sql = "select 'ann'";
  difficulty = none;
  source = Source.bird;
  split = split;
  dialect = Dialect.sqlite;
}

abbrev three_samples : List NormalizedSample
three_samples =
    asked "s1" "How many?" Split.train
    ∷ (asked "s2" "Which one?" Split.dev ∷ (asked "s3" "How many?" Split.test ∷ []))

abbrev shop_ref : DbRef
shop_ref = record {
  backend = Backend.sqlite;
  db_id = "shop";
  location = "shop.sqlite";
  attach_sqlite = false;
}

abbrev timed_out : String → ExecOutcome whole_numbers
timed_out sql = record {
  code = ErrorCode.timeout;
  sql = sql;
  db_id = "shop";
  elapsed = 30;
  result = none;
  error_message = none;
  error_traceback = none;
  context = [];
}

build_dataset_version_lem_example :
    let gold =
      gold_summary_of whole_numbers true true
        (λ task. ok (timed_out ""))
        (λ failures. ok tt)
        (λ s. shop_ref)
        (dedup_samples plain_texts three_samples).samples in
    let built =
      build_dataset_version whole_numbers plain_texts true true
        (λ task. ok (timed_out ""))
        (λ failures. ok tt)
        (λ s. shop_ref)
        three_samples
        "v1" in
    ((x : Exception) × (gold ≡ err x) × (built ≡ err x))
    ⊎ ((report : DataBuildReport) × (gold ≡ ok report.gold_validation)
        × (built ≡ ok report)
        × (report.per_split_counts Split.train
              + report.per_split_counts Split.dev
              + report.per_split_counts Split.test
            ≡ report.total_samples)
        × (report.total_samples + report.dedup_stats.question_level_duplicates ≡ 3))
build_dataset_version_lem_example =
    build_dataset_version_lem whole_numbers plain_texts true true (λ task. ok (timed_out ""))
      (λ failures. ok tt) (λ s. shop_ref) three_samples "v1"

-- JSON that keeps the payload as it is, and refuses one with a cell that it does not keep.
abbrev plain_json : Json whole_numbers
plain_json = record {
  Text = _;
  dumps = λ p. if keeps_result whole_numbers p.result then ok p else err other_error;
  loads = λ t. ok t;
  loads-dumps = λ p h. (p, rw h refl, refl);
}

abbrev on_shop : String → GoldRequest
on_shop sql = record { db_id = "shop"; gold_sql = sql; content = "bytes" }

-- Executions that all time out, with the statement in the outcome.
abbrev by_statement : GoldRequest → ExecOutcome whole_numbers
by_statement r = timed_out r.gold_sql

abbrev three_requests : List GoldRequest
three_requests = on_shop "select 1" ∷ (on_shop "select 2" ∷ (on_shop "select 1" ∷ []))

abbrev time_out_answer : Result Exception (ErrorCode × Option (ResultSet whole_numbers))
time_out_answer = ok (ErrorCode.timeout, none)

serve_all-uncached_example :
    map
      (answer whole_numbers plain_json plain_texts by_statement)
      (serve_all whole_numbers plain_json plain_texts by_statement three_requests [])
    ≡ time_out_answer ∷ (time_out_answer ∷ (time_out_answer ∷ []))
serve_all-uncached_example =
    serve_all-uncached whole_numbers plain_json plain_texts by_statement three_requests
      (λ r there. refl) (λ r s there among e. refl)

same_normalized :
    normalize_text_for_hash plain_texts "SELECT 'Ann'"
    ≡ normalize_text_for_hash plain_texts "select 'ann'"
unfolding normalize_text_for_hash str_eq
same_normalized = refl

serve_first_outcome_example :
    (serve whole_numbers plain_json plain_texts by_statement
      (on_shop "select 'ann'")
      (serve whole_numbers plain_json plain_texts by_statement (on_shop "SELECT 'Ann'") []).1).0
    ≡ ok (by_statement (on_shop "SELECT 'Ann'"))
serve_first_outcome_example =
    serve_first_outcome whole_numbers plain_json plain_texts by_statement (on_shop "SELECT 'Ann'")
      (on_shop "select 'ann'") refl refl refl same_normalized

read_cached-write_cached_example :
    (cache : Cache whole_numbers plain_json) × (write_cached whole_numbers plain_json [] "key"
        (timed_out "select 1")
        (ok tt)
      ≡ ok cache)
    × ((k : String)
        → read_cached whole_numbers plain_json cache k ≡ (
            if str_eq k "key"
            then ok (some (timed_out "select 1"))
            else read_cached whole_numbers plain_json [] k))
read_cached-write_cached_example =
    read_cached-write_cached whole_numbers plain_json plain_texts [] "key" (timed_out "select 1")
      refl

abbrev answered : NormalizedSample → PredictionRecord
answered s = record {
  sample_id = s.sample_id;
  db_id = s.db_id;
  difficulty = none;
  predicted_sql = "select 1";
  finish_reason = stop;
  exec_code = ErrorCode.exec_ok;
  comparison_result = some ComparisonResult.equal;
  undecidable_reason = none;
  elapsed = 2;
}

distinct_ids : DistinctIds three_samples
unfolding str_eq
distinct_ids = ((refl, (refl, tt)), ((refl, tt), (tt, tt)))

abbrev first_sample : NormalizedSample
first_sample = asked "s1" "How many?" Split.train

-- JSON that can read the record of the first sample.
abbrev one_record_json : RecordJson
one_record_json = record {
  model_dump_json = λ r. 123 ∷ (125 ∷ []);
  model_validate_json = λ text. ok (answered first_sample);
}

run_eval_resumes_example :
    run_eval one_record_json
      (λ s. ok (answered s))
      three_samples
      (persisted one_record_json (answered first_sample ∷ []))
    ≡ (ok (map answered three_samples), persisted one_record_json (map answered three_samples))
run_eval_resumes_example =
    run_eval_resumes one_record_json (λ s. ok (answered s)) answered (λ s. refl) (λ s. refl)
      (first_sample ∷ [])
      (asked "s2" "Which one?" Split.dev ∷ (asked "s3" "How many?" Split.test ∷ [])) distinct_ids
      ((refl, refl, (refl, (refl, tt))), tt)

abbrev locked : DbException
locked = record { class = ExceptionClass.sqlite_operational; text = "database is locked" }

abbrev answer_one : Generation
answer_one = record { text = "select 1"; finish_reason = stop }

holds_nothing : HoldsOutcomes whole_numbers plain_texts plain_json []
unfolding read_cached
holds_nothing k o h = cc

run_one_sample-classify_prediction_example :
    let predicted =
      execute_isolated whole_numbers shop_ref "select 1" 1000 30 5
        (process_end whole_numbers plain_texts.lower Backend.sqlite "" 5 (ran (raised locked))) in
    let gold =
      execute_isolated whole_numbers shop_ref "select 'ann'" 1000 30 5
        (process_end whole_numbers plain_texts.lower Backend.sqlite "" 5 killed) in
    let run =
      run_one_sample whole_numbers plain_texts plain_json first_sample answer_one predicted
        (some "bytes")
        gold
        (ok tt)
        by_default
        5
        [] in
    ((p : PredictionRecord) × (c : ClassifiedCandidate) × (run.0 ≡ ok p)
      × (p.sample_id ≡ "s1")
      × (classify_prediction "s1" 0 p ≡ ok c))
    ⊎ ((x : Exception) × (run.0 ≡ err x)
        × ((get_or_execute whole_numbers plain_json plain_texts "shop" "select 'ann'"
              (some "bytes")
              gold
              (ok tt)
              []).0
            ≡ err x))
run_one_sample-classify_prediction_example =
    run_one_sample-classify_prediction whole_numbers plain_texts plain_json first_sample by_default
      answer_one shop_ref "" 1000 30 5 (ran (raised locked)) killed (some "bytes") (ok tt) [] 0
      holds_nothing
