-- ===== src/Tests/Preferences.antt =====
-- Preference data and rewards on a question with three sampled predictions.
use model_hub.Prelude.{
  ℕ, ◌+◌, ◌≡◌, ◌↔◌, refl, false, none, some, List, [], ◌∷◌, String, ok, ◌>>=◌, length, In,
}
use model_hub.Common.Errors.{ErrorCode}
use model_hub.Compare.Types.{ComparisonResult}
use model_hub.Eval.Records.{PredictionRecord, stop}
use model_hub.Train.Dpo
use model_hub.Train.Dpo.{
  PreferenceTier, tier_rank, DiscardReason, ClassifiedCandidate, PreferencePair,
  QuestionPreferenceResult, classify_prediction, classify_all, classified, kept_candidates,
  pairs_with, all_pairs_of, build_preference_pairs_for_question, is_unclassified,
}
use model_hub.Train.Dpo.Pairs.{Prefers, preference_pairs_iff}
use model_hub.Train.Grpo.{
  RolloutGroup, RolloutReward, RewardOutcome, MaskReason, compute_reward, diagnose_group,
}
use model_hub.Train.Grpo.Agreement.{reward_of_candidate, compute_reward-classify_prediction}
use model_hub.Train.Grpo.Degenerate.{RewardsDiffer, diagnose_group_degenerate}

abbrev sampled : String → ErrorCode → ComparisonResult → PredictionRecord
sampled sql code result = record {
  sample_id = "q1";
  db_id = "shop";
  difficulty = none;
  predicted_sql = sql;
  finish_reason = stop;
  exec_code = code;
  comparison_result = some result;
  undecidable_reason = none;
  elapsed = 3;
}

abbrev three : List PredictionRecord
three =
    sampled "SELECT 2" ErrorCode.exec_ok ComparisonResult.not_equal
    ∷ (sampled "SELECT 1" ErrorCode.exec_ok ComparisonResult.equal
        ∷ (sampled "SELECT 3" ErrorCode.harness_internal ComparisonResult.not_equal ∷ []))

abbrev candidate_of : ℕ → String → PreferenceTier → ClassifiedCandidate
candidate_of i sql t = record {
  question_id = "q1";
  candidate_index = i;
  predicted_sql = sql;
  tier = some t;
  discard_reason = none;
}

abbrev first_over_second : PreferencePair
first_over_second = record {
  question_id = "q1";
  chosen_sql = "SELECT 1";
  rejected_sql = "SELECT 2";
  chosen_tier = PreferenceTier.exec_ok_correct;
  rejected_tier = PreferenceTier.exec_ok_incorrect;
}

abbrev result_of_three : QuestionPreferenceResult
result_of_three = record {
  question_id = "q1";
  classified =
      candidate_of 0 "SELECT 2" PreferenceTier.exec_ok_incorrect
      ∷ (candidate_of 1 "SELECT 1" PreferenceTier.exec_ok_correct
          ∷ (record {
            question_id = "q1";
            candidate_index = 2;
            predicted_sql = "SELECT 3";
            tier = none;
            discard_reason = some DiscardReason.harness_error;
          }
              ∷ []));
  pairs = first_over_second ∷ [];
}

built_of_three : build_preference_pairs_for_question "q1" three ≡ ok result_of_three
unfolding build_preference_pairs_for_question classify_all classify_prediction classified
    Dpo.post_init kept_candidates all_pairs_of pairs_with tier_rank
built_of_three = refl

preference_pairs_iff_example :
    In first_over_second (first_over_second ∷ []) ↔ Prefers "q1" three first_over_second
preference_pairs_iff_example =
    preference_pairs_iff "q1" three result_of_three built_of_three first_over_second

compute_reward-classify_prediction_example :
    compute_reward (sampled "SELECT 1" ErrorCode.timeout ComparisonResult.not_equal) ≡ (
      classify_prediction "q1" 0 (sampled "SELECT 1" ErrorCode.timeout ComparisonResult.not_equal)
      >>= λ c.
          ok (
            reward_of_candidate
              (sampled "SELECT 1" ErrorCode.timeout ComparisonResult.not_equal)
              c))
compute_reward-classify_prediction_example =
    compute_reward-classify_prediction "q1" 0
      (sampled "SELECT 1" ErrorCode.timeout ComparisonResult.not_equal)

abbrev rewarded : ℕ → RewardOutcome → RolloutReward
rewarded n outcome = record {
  sample_id = "q1";
  reward = some n;
  outcome = outcome;
  mask_reason = none;
}

abbrev mixed_group : RolloutGroup
mixed_group = record {
  question_id = "q1";
  rewards =
      rewarded 1 RewardOutcome.correct
      ∷ (rewarded 0 RewardOutcome.incorrect
          ∷ (record {
            sample_id = "q1";
            reward = none;
            outcome = RewardOutcome.masked;
            mask_reason = some MaskReason.undecidable;
          }
              ∷ []));
}

diagnose_group_degenerate_example :
    (((diagnose_group mixed_group).is_degenerate ≡ false) ↔ RewardsDiffer mixed_group)
    × ((diagnose_group mixed_group).masked_count
          + length (diagnose_group mixed_group).scored_rewards
        ≡ 3)
diagnose_group_degenerate_example = diagnose_group_degenerate mixed_group
