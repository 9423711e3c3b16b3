-- ===== src/Train/Grpo/Agreement.antt =====
-- train/grpo/reward.py against train/dpo.py: both read a prediction the same way.
use model_hub.Prelude.{ℕ, ◌≡◌, Option, none, some, String, ok, ◌>>=◌, arith}
use model_hub.Eval.Records.{PredictionRecord}
use model_hub.Train.Dpo
use model_hub.Train.Dpo.{
  PreferenceTier, DiscardReason, ClassifiedCandidate, classified, classify_prediction,
}
use model_hub.Train.Grpo.{RewardOutcome, MaskReason, RolloutReward, compute_reward, post_init}

abbrev pub outcome_of_tier : Option PreferenceTier → RewardOutcome
outcome_of_tier none = RewardOutcome.masked
outcome_of_tier (some PreferenceTier.exec_ok_correct) = RewardOutcome.correct
outcome_of_tier (some PreferenceTier.exec_ok_incorrect) = RewardOutcome.incorrect
outcome_of_tier (some PreferenceTier.exec_failed) = RewardOutcome.incorrect

abbrev pub reward_of_tier : Option PreferenceTier → Option ℕ
reward_of_tier none = none
reward_of_tier (some PreferenceTier.exec_ok_correct) = some 1
reward_of_tier (some PreferenceTier.exec_ok_incorrect) = some 0
reward_of_tier (some PreferenceTier.exec_failed) = some 0

abbrev pub mask_of_discard : Option DiscardReason → Option MaskReason
mask_of_discard none = none
mask_of_discard (some DiscardReason.harness_error) = some MaskReason.harness_error
mask_of_discard (some DiscardReason.undecidable) = some MaskReason.undecidable
mask_of_discard (some DiscardReason.output_truncated) = some MaskReason.output_truncated
mask_of_discard (some DiscardReason.unclassified) = some MaskReason.unclassified

-- The reward that a classified candidate should have.
abbrev pub reward_of_candidate : PredictionRecord → ClassifiedCandidate → RolloutReward
reward_of_candidate p c = record {
  sample_id = p.sample_id;
  reward = reward_of_tier c.tier;
  outcome = outcome_of_tier c.tier;
  mask_reason = mask_of_discard c.discard_reason;
}

-- The reward of a prediction is the one that its preference tier stands for: masked with the same
-- reason where the candidate is discarded, 1 for the best tier and 0 for the other two, and the
-- same predictions raise an exception in both.
pub compute_reward-classify_prediction :
    (q : String) (i : ℕ) (p : PredictionRecord)
    → compute_reward p ≡ (classify_prediction q i p >>= λ c. ok (reward_of_candidate p c))
unfolding compute_reward post_init classify_prediction classified Dpo.post_init
compute_reward-classify_prediction q i p = ground arith
