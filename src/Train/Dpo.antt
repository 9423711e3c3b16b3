-- ===== src/Train/Dpo.antt =====
-- train/dpo.py: tiers, classification of a sampled prediction, and the preference pairs of one
-- question. A candidate that is kept is listed with its tier, which the code asserts to be there.
pub mod Dataset
pub mod Kept
pub mod Pairs
pub mod Counts
use model_hub.Prelude.{
  ℕ, suc, Bool, true, false, ◌||◌, Option, none, some, List, [], ◌∷◌, ◌++◌, String, Result, ok, err,
  ◌>>=◌, ltb, ◌==◌, if◌then◌else◌,
}
use model_hub.Common.Errors.{ErrorCode, Exception, value_error, is_exec_ok}
use model_hub.Compare.Types.{is_equal, is_undecidable}
use model_hub.Eval.Records.{PredictionRecord, is_output_truncated, is_harness_error}

pub data PreferenceTier : Type 0 where
  exec_ok_correct exec_ok_incorrect exec_failed : PreferenceTier

unfoldable pub tier_rank : PreferenceTier → ℕ
tier_rank PreferenceTier.exec_ok_correct = 0
tier_rank PreferenceTier.exec_ok_incorrect = 1
tier_rank PreferenceTier.exec_failed = 2

pub data DiscardReason : Type 0 where
  harness_error undecidable output_truncated unclassified : DiscardReason

pub record ClassifiedCandidate : Type 0 where
  pub question_id : String
  pub candidate_index : ℕ
  pub predicted_sql : String
  pub tier : Option PreferenceTier
  pub discard_reason : Option DiscardReason

-- `__post_init__`: exactly one of the tier and the reason is set.
unfoldable pub post_init : ClassifiedCandidate → Result Exception ClassifiedCandidate
post_init c = elim c.tier [
  | none ↦ elim c.discard_reason [ none ↦ err value_error | some r ↦ ok c ]
  | some t ↦ elim c.discard_reason [ none ↦ ok c | some r ↦ err value_error ]
]

-- `exec_code is ErrorCode.UNCLASSIFIED`
abbrev pub is_unclassified : ErrorCode → Bool
is_unclassified ErrorCode.unclassified = true
is_unclassified _ = false

-- `exec_code in _EXEC_FAILED_CODES`
abbrev pub is_exec_failed : ErrorCode → Bool
is_exec_failed ErrorCode.syntax = true
is_exec_failed ErrorCode.semantic = true
is_exec_failed ErrorCode.timeout = true
is_exec_failed ErrorCode.unsafe_statement = true
is_exec_failed _ = false

-- The inner function `_classified`.
unfoldable pub classified :
    String
    → ℕ
    → PredictionRecord
    → Option PreferenceTier
    → Option DiscardReason
    → Result Exception ClassifiedCandidate
unfolding post_init
classified question_id candidate_index prediction tier discard_reason = post_init (record {
  question_id = question_id;
  candidate_index = candidate_index;
  predicted_sql = prediction.predicted_sql;
  tier = tier;
  discard_reason = discard_reason;
})

unfoldable pub classify_prediction :
    String → ℕ → PredictionRecord → Result Exception ClassifiedCandidate
unfolding classified
classify_prediction question_id i p =
    if is_harness_error p
    then classified question_id i p none (some DiscardReason.harness_error)
    else if is_output_truncated p
    then classified question_id i p none (some DiscardReason.output_truncated)
    else if is_undecidable p.comparison_result
    then classified question_id i p none (some DiscardReason.undecidable)
    else if is_unclassified p.exec_code
    then classified question_id i p none (some DiscardReason.unclassified)
    else if is_exec_ok p.exec_code
    then classified question_id i p
        (some (
          if is_equal p.comparison_result
          then PreferenceTier.exec_ok_correct
          else PreferenceTier.exec_ok_incorrect))
        none
    else if is_exec_failed p.exec_code
    then classified question_id i p (some PreferenceTier.exec_failed) none
    else err value_error

pub record PreferencePair : Type 0 where
  pub question_id : String
  pub chosen_sql : String
  pub rejected_sql : String
  pub chosen_tier : PreferenceTier
  pub rejected_tier : PreferenceTier

pub record QuestionPreferenceResult : Type 0 where
  pub question_id : String
  pub classified : List ClassifiedCandidate
  pub pairs : List PreferencePair

-- `classify_prediction` over `enumerate(predictions)`, from the index given.
unfoldable pub classify_all :
    String → ℕ → List PredictionRecord → Result Exception (List ClassifiedCandidate)
classify_all question_id i [] = ok []
classify_all question_id i (p ∷ ps) = classify_prediction question_id i p >>= λ c.
    classify_all question_id (suc i) ps >>= λ cs. ok (c ∷ cs)

-- A candidate that is kept, with its tier.
pub record KeptCandidate : Type 0 where
  pub candidate : ClassifiedCandidate
  pub tier : PreferenceTier

-- `[c for c in classified if c.tier is not None]`
unfoldable pub kept_candidates : List ClassifiedCandidate → List KeptCandidate
kept_candidates [] = []
kept_candidates (c ∷ cs) = elim c.tier [
  | none ↦ kept_candidates cs
  | some t ↦ record { candidate = c; tier = t } ∷ kept_candidates cs
]

abbrev pub pair_of : String → KeptCandidate → KeptCandidate → PreferencePair
pair_of question_id chosen rejected = record {
  question_id = question_id;
  chosen_sql = chosen.candidate.predicted_sql;
  rejected_sql = rejected.candidate.predicted_sql;
  chosen_tier = chosen.tier;
  rejected_tier = rejected.tier;
}

-- The inner loop.
unfoldable pub pairs_with : String → KeptCandidate → List KeptCandidate → List PreferencePair
pairs_with question_id chosen [] = []
pairs_with question_id chosen (rejected ∷ kept) =
    let rest = pairs_with question_id chosen kept in
    if chosen.candidate.candidate_index == rejected.candidate.candidate_index
    then rest
    else if ltb (tier_rank chosen.tier) (tier_rank rejected.tier)
    then pair_of question_id chosen rejected ∷ rest
    else rest

-- The outer loop, over what is left of `kept`.
unfoldable pub all_pairs_of : String → List KeptCandidate → List KeptCandidate → List PreferencePair
all_pairs_of question_id kept [] = []
all_pairs_of question_id kept (chosen ∷ left) =
    pairs_with question_id chosen kept ++ all_pairs_of question_id kept left

unfoldable pub build_preference_pairs_for_question :
    String → List PredictionRecord → Result Exception QuestionPreferenceResult
build_preference_pairs_for_question question_id predictions =
    classify_all question_id 0 predictions >>= λ classified.
    let kept = kept_candidates classified in
    ok (record {
      question_id = question_id;
      classified = classified;
      pairs = all_pairs_of question_id kept kept;
    })
