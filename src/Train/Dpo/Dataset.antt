-- ===== src/Train/Dpo/Dataset.antt =====
-- train/dpo.py: the dataset of all questions, its counts and its guard. Rates are exact fractions;
-- `predictions_by_question` is the list of its items.
use model_hub.Prelude.{
  ℕ, ◌+◌, Bool, true, false, not, Option, none, some, List, [], ◌∷◌, ◌++◌, String, Result, ok, err,
  ◌>>=◌, length, ◌==◌, if◌then◌else◌,
}
use model_hub.Prelude.Ratio.{Ratio, ratio, ratio_lt}
use model_hub.Prelude.Counting.{count_if}
use model_hub.Prelude.Grouping.{sum_of}
use model_hub.Common.Errors.{Exception, value_error, other_error}
use model_hub.Common.Capability.{CheckStatus, pass, skip, is_available}
use model_hub.Eval.Records.{PredictionRecord}
use model_hub.Eval.Metrics.{harness_error_flood_threshold}
use model_hub.Train.Dpo.{
  PreferenceTier, DiscardReason, PreferencePair, QuestionPreferenceResult,
  build_preference_pairs_for_question,
}

pub record PreferenceDatasetReport : Type 0 where
  pub per_question : List QuestionPreferenceResult

abbrev pub pairs_of : List QuestionPreferenceResult → List PreferencePair
pairs_of [] = []
pairs_of (q ∷ qs) = q.pairs ++ pairs_of qs

unfoldable pub all_pairs : PreferenceDatasetReport → List PreferencePair
all_pairs report = pairs_of report.per_question

unfoldable pub pair_count : PreferenceDatasetReport → ℕ
unfolding all_pairs
pair_count report = length (all_pairs report)

unfoldable pub total_candidates : PreferenceDatasetReport → ℕ
total_candidates report = sum_of (λ q. length q.classified) report.per_question

-- `c.tier is tier` for a tier or None
abbrev pub is_tier : PreferenceTier → Option PreferenceTier → Bool
is_tier t none = false
is_tier PreferenceTier.exec_ok_correct (some PreferenceTier.exec_ok_correct) = true
is_tier PreferenceTier.exec_ok_incorrect (some PreferenceTier.exec_ok_incorrect) = true
is_tier PreferenceTier.exec_failed (some PreferenceTier.exec_failed) = true
is_tier _ (some _) = false

abbrev pub is_reason : DiscardReason → Option DiscardReason → Bool
is_reason r none = false
is_reason DiscardReason.harness_error (some DiscardReason.harness_error) = true
is_reason DiscardReason.undecidable (some DiscardReason.undecidable) = true
is_reason DiscardReason.output_truncated (some DiscardReason.output_truncated) = true
is_reason DiscardReason.unclassified (some DiscardReason.unclassified) = true
is_reason _ (some _) = false

-- The dict as a function of its key.
unfoldable pub tier_counts : PreferenceDatasetReport → PreferenceTier → ℕ
tier_counts report t =
    sum_of (λ q. count_if (λ c. is_tier t c.tier) q.classified) report.per_question

unfoldable pub discard_counts : PreferenceDatasetReport → DiscardReason → ℕ
discard_counts report r =
    sum_of (λ q. count_if (λ c. is_reason r c.discard_reason) q.classified) report.per_question

-- `sum(tiers.values())`
abbrev pub kept_total : PreferenceDatasetReport → ℕ
kept_total report =
    tier_counts report PreferenceTier.exec_ok_correct
    + tier_counts report PreferenceTier.exec_ok_incorrect
    + tier_counts report PreferenceTier.exec_failed

unfoldable pub exec_ok_correct_share : PreferenceDatasetReport → Result Exception Ratio
exec_ok_correct_share report =
    if kept_total report == 0
    then err value_error
    else ok (ratio (tier_counts report PreferenceTier.exec_ok_correct) (kept_total report))

unfoldable pub unclassified_rate : PreferenceDatasetReport → Result Exception Ratio
unclassified_rate report =
    if total_candidates report == 0
    then err value_error
    else ok (ratio (discard_counts report DiscardReason.unclassified) (total_candidates report))

unfoldable pub assert_unclassified_rate_ok :
    PreferenceDatasetReport → Ratio → Result Exception (Unit {0})
unfolding unclassified_rate
assert_unclassified_rate_ok report threshold =
    unclassified_rate report >>= λ rate. if ratio_lt threshold rate then err value_error else ok tt

-- The generator over `predictions_by_question.items()`.
unfoldable pub build_questions :
    List (String × List PredictionRecord) → Result Exception (List QuestionPreferenceResult)
build_questions [] = ok []
build_questions ((question_id, predictions) ∷ questions) =
    build_preference_pairs_for_question question_id predictions >>= λ q.
    build_questions questions >>= λ qs. ok (q ∷ qs)

unfoldable pub build_preference_dataset :
    List (String × List PredictionRecord) → Result Exception PreferenceDatasetReport
unfolding assert_unclassified_rate_ok
build_preference_dataset questions =
    if length questions == 0
    then err value_error
    else build_questions questions >>= λ per_question.
        let report : PreferenceDatasetReport = record { per_question = per_question } in
        assert_unclassified_rate_ok report harness_error_flood_threshold >>= λ u. ok report

abbrev high_correct_share_threshold : Ratio
high_correct_share_threshold = record { num = 7; den = 10 }

-- The two texts that `assess_expected_dpo_benefit` returns.
pub data Benefit : Type 0 where
  small_benefit : Ratio → Benefit
  room_remains : Ratio → Benefit

unfoldable pub assess_expected_dpo_benefit : PreferenceDatasetReport → Result Exception Benefit
unfolding exec_ok_correct_share
assess_expected_dpo_benefit report = exec_ok_correct_share report >>= λ share.
    if not (ratio_lt share high_correct_share_threshold)
    then ok (small_benefit share)
    else ok (room_remains share)

unfoldable pub check_trl_available : Bool → CheckStatus
check_trl_available installed = if installed then pass else skip

-- Every branch raises: no pairs, no trl, or the part that is not implemented.
unfoldable pub run_dpo_training : List PreferencePair → Bool → Exception
unfolding check_trl_available is_available
run_dpo_training preference_pairs trl_installed =
    if length preference_pairs == 0
    then value_error
    else if not (is_available (check_trl_available trl_installed))
    then other_error
    else other_error
