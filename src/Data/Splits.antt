-- ===== src/Data/Splits.antt =====
-- data/splits.py. A dict of keys is the list of its items.
use model_hub.Prelude.{Bool, true, false, ◌&&◌, List, [], Result, ok, err, str_eq, if◌then◌else◌}
use model_hub.Prelude.Counting.{any_if, filter_if}
use model_hub.Common.Errors.{
  ModelHubError, base_error, data_split_leak, data_stage, Exception, hub_error,
}
use model_hub.Data.Schema.{NormalizedSample, Split}
use model_hub.Data.Hashing.{TextLibrary, question_hash}

-- `s.split is split`
abbrev pub is_split : Split → Split → Bool
is_split Split.train Split.train = true
is_split Split.dev Split.dev = true
is_split Split.test Split.test = true
is_split _ _ = false

unfoldable pub split_of : List NormalizedSample → Split → List NormalizedSample
split_of samples split = filter_if (λ s. is_split s.split split) samples

module _ (t : TextLibrary) where
  -- `(question_hash(s.question), s.db_id)` of two samples is the same.
  abbrev pub same_key : NormalizedSample → NormalizedSample → Bool
  same_key a b =
      str_eq (question_hash t a.question) (question_hash t b.question) && str_eq a.db_id b.db_id

  -- `set(keys_a) & set(keys_b)` is not empty.
  abbrev pub overlaps : List NormalizedSample → List NormalizedSample → Bool
  overlaps xs ys = any_if (λ a. any_if (same_key a) ys) xs

  unfoldable pub assert_splits_disjoint :
      List NormalizedSample
      → List NormalizedSample
      → List NormalizedSample
      → Result Exception (Unit {0})
  assert_splits_disjoint train dev test =
      if overlaps train dev
      then err (hub_error leak)
      else if overlaps train test
      then err (hub_error leak)
      else if overlaps dev test
      then err (hub_error leak)
      else ok tt
    where
      leak : ModelHubError
      leak = record {
        error_class = base_error;
        code = data_split_leak;
        stage = data_stage;
        context = [];
        retryable = false;
      }
