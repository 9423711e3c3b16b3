-- ===== src/Data/Pipeline.antt =====
-- data/pipeline.py, gold_validation.py, quick_eval.py and safety_adversarial.py. The executions of
-- the gold SQL, whether the database root is a directory, and how `write_gold_exec_failures` ends on a
-- list of failures are arguments.
use model_hub.Prelude.{
  ℕ, ◌+◌, ◌-◌, ◌≡◌, ◌⊎◌, inl, inr, refl, Result-cases, ◌==◌, Bool, true, false, not, Option, none,
  some, List, [], ◌∷◌, map, String, Result, ok, err, ◌>>=◌, length, str_eq, if◌then◌else◌, arith,
}
use model_hub.Prelude.Counting.{any_if, count_if}
use model_hub.Prelude.Dict.{Dict, insert, lookup}
use model_hub.Common.Errors.{ErrorCode, ErrorCode-discrete, Exception, value_error, other_error}
use model_hub.Compare.Values.{Doubles}
use model_hub.Data.Schema.{NormalizedSample, Source, Split, is_crud}
use model_hub.Data.Hashing.{TextLibrary, dataset_content_hash, sorted_by}
use model_hub.Data.Dedup.{DedupStats, dedup_samples}
use model_hub.Data.Dedup.Distinct.{assert_splits_disjoint-dedup_samples, dedup_samples_lem}
use model_hub.Data.Splits.{split_of, assert_splits_disjoint}
use model_hub.SqlExec.Outcomes.{ExecOutcome, succeeded}
use model_hub.SqlExec.Backends.{DbRef}
use model_hub.SqlExec.Sandbox.{SqlTask, execute_many}

-- `s.source is not Source.MINIDEV_SELECT`
abbrev pub is_select : Source → Bool
is_select Source.minidev_select = true
is_select _ = false

unfoldable pub select_quick_eval_ids : List NormalizedSample → Result Exception (List String)
select_quick_eval_ids samples =
    if any_if (λ s. not (is_select s.source)) samples
    then err value_error
    else ok (sorted_by (λ s. s) (map (λ s. s.sample_id) samples))

-- The samples that are exported, in their order.
unfoldable pub export_safety_adversarial_set :
    List NormalizedSample → Result Exception (List NormalizedSample)
export_safety_adversarial_set samples =
    if any_if (λ s. not (is_crud s.source)) samples
    then err value_error
    else ok (sorted_by (λ s. s.sample_id) samples)

pub record GoldFailure : Type 0 where
  pub sample_id : String
  pub db_id : String
  pub gold_sql : String
  pub code : ErrorCode
  pub error_message : String

pub record GoldValidationSummary : Type 0 where
  pub total : ℕ
  pub exec_ok : ℕ
  pub failed : ℕ
  pub failure_breakdown : ErrorCode → ℕ

-- `s.difficulty or "unlabeled"`
abbrev pub difficulty_key : Option String → String
difficulty_key none = "unlabeled"
difficulty_key (some d) = if str_eq d "" then "unlabeled" else d

or_empty : Option String → String
or_empty none = ""
or_empty (some s) = s

-- `{s.sample_id: s for s in samples}`
sample_by_id : List NormalizedSample → Dict NormalizedSample → Dict NormalizedSample
sample_by_id [] by_id = by_id
sample_by_id (s ∷ samples) by_id = sample_by_id samples (insert s.sample_id s by_id)

abbrev code_of_failure : ErrorCode → GoldFailure → Bool
code_of_failure code f = elim (ErrorCode-discrete f.code code) [ yes h ↦ true | no h ↦ false ]

pub record DataBuildReport : Type 0 where
  pub dataset_version : String
  pub dataset_hash : String
  pub total_samples : ℕ
  pub per_split_counts : Split → ℕ
  pub per_difficulty_counts : String → ℕ
  pub dedup_stats : DedupStats
  pub gold_validation : Option GoldValidationSummary

module _ (d : Doubles) where
  gold_task : NormalizedSample → (NormalizedSample → DbRef) → SqlTask d
  gold_task s ref_of = record { task_id = s.sample_id; ref = ref_of s; sql = s.gold_sql }

  -- The loop over the outcomes, with a KeyError for an id that is not a sample's.
  gold_failures : Dict NormalizedSample → Dict (ExecOutcome d) → Result Exception (List GoldFailure)
  unfolding or_empty
  gold_failures by_id [] = ok []
  gold_failures by_id ((task_id, o) ∷ outcomes) =
      if succeeded d o then gold_failures by_id outcomes else elim (lookup task_id by_id) [
        | none ↦ err other_error
        | some s ↦ gold_failures by_id outcomes >>= λ fs. ok (
            record {
              sample_id = s.sample_id;
              db_id = s.db_id;
              gold_sql = s.gold_sql;
              code = o.code;
              error_message = or_empty o.error_message;
            }
            ∷ fs)
      ]

  unfoldable pub validate_gold_sql :
      (SqlTask d → Result Exception (ExecOutcome d))
      → (NormalizedSample → DbRef)
      → List NormalizedSample
      → Result Exception (GoldValidationSummary × List GoldFailure)
  unfolding gold_task gold_failures sample_by_id
  validate_gold_sql run ref_of samples =
      execute_many d run (map (λ s. gold_task s ref_of) samples) [] >>= λ outcomes.
      gold_failures (sample_by_id samples []) outcomes >>= λ failures. ok (
        record {
          total = length samples;
          exec_ok = length samples - length failures;
          failed = length failures;
          failure_breakdown = λ code. count_if (code_of_failure code) failures;
        },
        failures,
      )

  -- `validate_gold` with whether `db_root` is a directory, the executions, and the write of the
  -- failures where there are any.
  unfoldable pub gold_summary_of :
      Bool
      → Bool
      → (SqlTask d → Result Exception (ExecOutcome d))
      → (List GoldFailure → Result Exception (Unit {0}))
      → (NormalizedSample → DbRef)
      → List NormalizedSample
      → Result Exception (Option GoldValidationSummary)
  gold_summary_of validate_gold db_root_is_dir run written ref_of samples =
      if not validate_gold
      then ok none
      else if not db_root_is_dir
      then err other_error
      else validate_gold_sql run ref_of samples >>= λ (summary, failures).
          if length failures == 0
          then ok (some summary)
          else written failures >>= λ u. ok (some summary)

  unfoldable pub build_dataset_version :
      TextLibrary
      → Bool
      → Bool
      → (SqlTask d → Result Exception (ExecOutcome d))
      → (List GoldFailure → Result Exception (Unit {0}))
      → (NormalizedSample → DbRef)
      → List NormalizedSample
      → String
      → Result Exception DataBuildReport
  unfolding gold_summary_of
  build_dataset_version t validate_gold db_root_is_dir run written ref_of raw_samples
        dataset_version =
      let dedup_result = dedup_samples t raw_samples in
      let samples = dedup_result.samples in
      assert_splits_disjoint t (split_of samples Split.train) (split_of samples Split.dev)
        (split_of samples Split.test)
      >>= λ u. gold_summary_of validate_gold db_root_is_dir run written ref_of samples >>= λ gold.
          ok (record {
            dataset_version = dataset_version;
            dataset_hash = dataset_content_hash t samples;
            total_samples = length samples;
            per_split_counts = λ split. length (split_of samples split);
            per_difficulty_counts =
                λ key. count_if (λ s. str_eq key (difficulty_key s.difficulty)) samples;
            dedup_stats = dedup_result.stats;
            gold_validation = gold;
          })

  split_counts :
      (samples : List NormalizedSample)
      → length (split_of samples Split.train)
          + length (split_of samples Split.dev)
          + length (split_of samples Split.test)
        ≡ length samples
  unfolding split_of
  split_counts [] = refl
  split_counts (s ∷ samples) = ground (arith, split_counts samples)

  -- The build of a dataset version raises exactly what the validation of the gold SQL, with the write
  -- of its failures, raises: the splits of the deduplicated samples never leak into each other.
  -- Otherwise it gives a report, which keeps the summary of that validation and counts each sample in
  -- one split; the samples with the dropped duplicates are all that were given.
  pub build_dataset_version_lem :
      (t : TextLibrary) (validate_gold db_root_is_dir : Bool)
      (run : SqlTask d → Result Exception (ExecOutcome d))
      (written : List GoldFailure → Result Exception (Unit {0})) (ref_of : NormalizedSample → DbRef)
      (raw : List NormalizedSample) (version : String)
      → let gold =
          gold_summary_of validate_gold db_root_is_dir run written ref_of
            (dedup_samples t raw).samples in
        let built =
          build_dataset_version t validate_gold db_root_is_dir run written ref_of raw version in
        ((x : Exception) × (gold ≡ err x) × (built ≡ err x))
        ⊎ ((report : DataBuildReport) × (gold ≡ ok report.gold_validation)
            × (built ≡ ok report)
            × (report.per_split_counts Split.train
                  + report.per_split_counts Split.dev
                  + report.per_split_counts Split.test
                ≡ report.total_samples)
            × (report.total_samples + report.dedup_stats.question_level_duplicates ≡ length raw))
  unfolding build_dataset_version
  build_dataset_version_lem t validate_gold db_root_is_dir run written ref_of raw version =
      let counts = dedup_samples_lem t raw in
      let samples = (dedup_samples t raw).samples in
      let disjoint = assert_splits_disjoint-dedup_samples t raw in
      elim (Result-cases
        (gold_summary_of validate_gold db_root_is_dir run written ref_of samples)) [
          | inr (x, e) ↦ inl (x, e, rw (disjoint, e) refl)
          | inl (gold, e) ↦
              let report : DataBuildReport = record {
                dataset_version = version;
                dataset_hash = dataset_content_hash t samples;
                total_samples = length samples;
                per_split_counts = λ split. length (split_of samples split);
                per_difficulty_counts =
                    λ key. count_if (λ s. str_eq key (difficulty_key s.difficulty)) samples;
                dedup_stats = (dedup_samples t raw).stats;
                gold_validation = gold;
              } in
              inr (
                report,
                e,
                rw (disjoint, e) refl,
                split_counts samples,
                omega (arith, counts.1, counts.2, counts.3),
              )
        ]
