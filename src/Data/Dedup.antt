-- ===== src/Data/Dedup.antt =====
-- data/dedup.py. The sets and counts of hashes are lists and dicts with the hashes as keys.
pub mod Distinct
use model_hub.Prelude.{
  ℕ, suc, ◌+◌, ◌-◌, Bool, true, false, Option, none, some, List, [], ◌∷◌, String, length, ltb,
  str_eq, if◌then◌else◌,
}
use model_hub.Prelude.Counting.{any_if}
use model_hub.Prelude.Grouping.{sum_of}
use model_hub.Prelude.Dict.{Dict, lookup, insert}
use model_hub.Data.Schema.{NormalizedSample}
use model_hub.Data.Hashing.{TextLibrary, question_hash, sql_hash}

pub record DedupStats : Type 0 where
  pub input_count : ℕ
  pub output_count : ℕ
  pub question_level_duplicates : ℕ
  pub sql_level_duplicates_within_kept : ℕ

pub record DedupResult : Type 0 where
  pub samples : List NormalizedSample
  pub stats : DedupStats
  pub dropped_sample_ids : List String

-- `kept` and `dropped_ids`, as the loop goes on from where it stands.
pub record Scan : Type 0 where
  pub kept : List NormalizedSample
  pub dropped : List String

module _ (t : TextLibrary) where
  -- The loop over the samples, with the hashes that were seen.
  unfoldable pub scan : List String → List NormalizedSample → Scan
  scan seen [] = record { kept = []; dropped = [] }
  scan seen (s ∷ samples) = elim (any_if (str_eq (question_hash t s.question)) seen) [
    | true ↦
        let rest = scan seen samples in
        record { kept = rest.kept; dropped = s.sample_id ∷ rest.dropped }
    | false ↦
        let rest = scan (question_hash t s.question ∷ seen) samples in
        record { kept = s ∷ rest.kept; dropped = rest.dropped }
  ]

  or_zero : Option ℕ → ℕ
  or_zero none = 0
  or_zero (some n) = n

  -- The loop that counts the SQL hashes.
  sql_hash_counts : List NormalizedSample → Dict ℕ → Dict ℕ
  unfolding or_zero
  sql_hash_counts [] counts = counts
  sql_hash_counts (s ∷ samples) counts =
      sql_hash_counts samples (
        insert (sql_hash t s.gold_sql) (or_zero (lookup (sql_hash t s.gold_sql) counts) + 1) counts)

  unfoldable pub dedup_samples : List NormalizedSample → DedupResult
  unfolding scan sql_hash_counts
  dedup_samples samples =
      let found = scan [] samples in
      record {
        samples = found.kept;
        stats = record {
          input_count = length samples;
          output_count = length found.kept;
          question_level_duplicates = length found.dropped;
          sql_level_duplicates_within_kept =
              sum_of (λ (_, count). if ltb 1 count then count - 1 else 0)
                (sql_hash_counts found.kept []);
        };
        dropped_sample_ids = found.dropped;
      }
