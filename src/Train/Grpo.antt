-- ===== src/Train/Grpo.antt =====
-- train/grpo/reward.py and group_diagnostics.py: the reward of a rollout, groups and their
-- diagnosis. A reward is 0 or 1, a natural.
pub mod Agreement
pub mod Degenerate
pub mod Steps
pub mod Guards
use model_hub.Prelude.{
  ℕ, suc, ◌-◌, Bool, true, false, not, Option, none, some, List, [], ◌∷◌, String, Result, ok, err,
  length, ltb, leb, ◌==◌, str_eq, if◌then◌else◌,
}
use model_hub.Prelude.Counting.{any_if}
use model_hub.Common.Errors.{ErrorCode, Exception, value_error, is_exec_ok}
use model_hub.Compare.Types.{is_equal, is_undecidable}
use model_hub.Eval.Records.{PredictionRecord, is_output_truncated, is_harness_error}
use model_hub.Train.Dpo.{is_unclassified}

pub data RewardOutcome : Type 0 where
  correct incorrect masked : RewardOutcome

pub data MaskReason : Type 0 where
  harness_error output_truncated undecidable unclassified : MaskReason

pub record RolloutReward : Type 0 where
  pub sample_id : String
  pub reward : Option ℕ
  pub outcome : RewardOutcome
  pub mask_reason : Option MaskReason

abbrev pub is_some {ℓ} : {A : Type ℓ} → Option A → Bool
is_some none = false
is_some (some a) = true

-- The checks of `__post_init__`: MASKED has a reason and no reward, any other outcome the reverse.
unfoldable pub post_init : RolloutReward → Result Exception RolloutReward
post_init r = elim r.outcome [
  | RewardOutcome.masked ↦
      if is_some r.reward
      then err value_error
      else if not (is_some r.mask_reason)
      then err value_error
      else ok r
  | _ ↦
      if not (is_some r.reward)
      then err value_error
      else if is_some r.mask_reason
      then err value_error
      else ok r
]

-- `exec_code in _MODEL_FAULT_ZERO_CODES`
abbrev pub is_model_fault : ErrorCode → Bool
is_model_fault ErrorCode.syntax = true
is_model_fault ErrorCode.semantic = true
is_model_fault ErrorCode.timeout = true
is_model_fault ErrorCode.unsafe_statement = true
is_model_fault _ = false

abbrev pub masked_reward : PredictionRecord → MaskReason → Result Exception RolloutReward
unfolding post_init
masked_reward p reason = post_init (record {
  sample_id = p.sample_id;
  reward = none;
  outcome = RewardOutcome.masked;
  mask_reason = some reason;
})

abbrev pub scored_reward : PredictionRecord → ℕ → RewardOutcome → Result Exception RolloutReward
unfolding post_init
scored_reward p reward outcome = post_init (record {
  sample_id = p.sample_id;
  reward = some reward;
  outcome = outcome;
  mask_reason = none;
})

unfoldable pub compute_reward : PredictionRecord → Result Exception RolloutReward
unfolding post_init
compute_reward p =
    if is_harness_error p
    then masked_reward p MaskReason.harness_error
    else if is_output_truncated p
    then masked_reward p MaskReason.output_truncated
    else if is_undecidable p.comparison_result
    then masked_reward p MaskReason.undecidable
    else if is_unclassified p.exec_code
    then masked_reward p MaskReason.unclassified
    else if is_exec_ok p.exec_code
    then if is_equal p.comparison_result
      then scored_reward p 1 RewardOutcome.correct
      else scored_reward p 0 RewardOutcome.incorrect
    else if is_model_fault p.exec_code
    then scored_reward p 0 RewardOutcome.incorrect
    else err value_error

pub record RolloutGroup : Type 0 where
  pub question_id : String
  pub rewards : List RolloutReward

-- The checks of `RolloutGroup.__post_init__`.
unfoldable pub group_post_init : RolloutGroup → Result Exception RolloutGroup
group_post_init group =
    if length group.rewards == 0
    then err value_error
    else if any_if (λ r. not (str_eq r.sample_id group.question_id)) group.rewards
    then err value_error
    else ok group

-- The texts of `degenerate_reason`.
pub data DegenerateReason : Type 0 where
  all_masked : DegenerateReason
  identical_rewards : ℕ → ℕ → DegenerateReason

pub record GroupDiagnostics : Type 0 where
  pub question_id : String
  pub total_rollouts : ℕ
  pub masked_count : ℕ
  pub scored_rewards : List ℕ
  pub is_degenerate : Bool
  pub degenerate_reason : Option DegenerateReason

-- `tuple(r.reward for r in rewards if r.reward is not None)`
unfoldable pub scored : List RolloutReward → List ℕ
scored [] = []
scored (r ∷ rs) = elim r.reward [ none ↦ scored rs | some x ↦ x ∷ scored rs ]

-- `len(set(xs)) <= 1`, for a list with the first element given.
unfoldable pub all_same : ℕ → List ℕ → Bool
all_same x [] = true
all_same x (y ∷ ys) = let rest = all_same x ys in if y == x then rest else false

abbrev diagnosed : RolloutGroup → List ℕ → Option DegenerateReason → GroupDiagnostics
diagnosed group scores reason = record {
  question_id = group.question_id;
  total_rollouts = length group.rewards;
  masked_count = length group.rewards - length scores;
  scored_rewards = scores;
  is_degenerate = is_some reason;
  degenerate_reason = reason;
}

-- `len(set(scored)) <= 1` with the reason that is given then.
abbrev pub degenerate_reason_of : List ℕ → Option DegenerateReason
degenerate_reason_of [] = some all_masked
degenerate_reason_of (x ∷ xs) =
    if all_same x xs then some (identical_rewards (length (x ∷ xs)) x) else none

unfoldable pub diagnose_group : RolloutGroup → GroupDiagnostics
unfolding scored all_same
diagnose_group group =
    diagnosed group (scored group.rewards) (degenerate_reason_of (scored group.rewards))
