-- ===== src/Train/Dpo/Counts.antt =====
-- train/dpo.py: what the counts of a dataset add up to, and when a dataset is built.
use model_hub.Prelude.{
  ℕ, suc, ◌+◌, ◌*◌, ◌≤◌, ◌<◌, ◌≡◌, ◌↔◌, inl, inr, refl, Bool, Option, none, some, List, [], ◌∷◌,
  String, Result, ok, err, length, All, ◌==◌, if◌then◌else◌, arith, Bool-cases, Ensures,
  Ensures-bind, Ensures_ok,
}
use model_hub.Prelude.Counting.{count_if}
use model_hub.Common.Errors.{Exception}
use model_hub.Eval.Records.{PredictionRecord}
use model_hub.Eval.Metrics.{harness_error_flood_threshold}
use model_hub.Train.Dpo.{
  PreferenceTier, DiscardReason, ClassifiedCandidate, classified, post_init, classify_prediction,
  classify_all, QuestionPreferenceResult, build_preference_pairs_for_question,
}
use model_hub.Train.Dpo.Dataset.{
  PreferenceDatasetReport, total_candidates, is_tier, is_reason, tier_counts, discard_counts,
  kept_total, unclassified_rate, assert_unclassified_rate_ok, build_questions,
  build_preference_dataset,
}

abbrev set_fields {ℓ} : {A : Type ℓ} → Option A → ℕ
set_fields none = 0
set_fields (some a) = 1

abbrev one : Bool → ℕ
one b = if b then 1 else 0

tier_indicators :
    (t : Option PreferenceTier)
    → one (is_tier PreferenceTier.exec_ok_correct t)
        + one (is_tier PreferenceTier.exec_ok_incorrect t)
        + one (is_tier PreferenceTier.exec_failed t)
      ≡ set_fields t
tier_indicators none = refl
tier_indicators (some PreferenceTier.exec_ok_correct) = refl
tier_indicators (some PreferenceTier.exec_ok_incorrect) = refl
tier_indicators (some PreferenceTier.exec_failed) = refl

reason_indicators :
    (r : Option DiscardReason)
    → one (is_reason DiscardReason.harness_error r)
        + one (is_reason DiscardReason.undecidable r)
        + one (is_reason DiscardReason.output_truncated r)
        + one (is_reason DiscardReason.unclassified r)
      ≡ set_fields r
reason_indicators none = refl
reason_indicators (some DiscardReason.harness_error) = refl
reason_indicators (some DiscardReason.undecidable) = refl
reason_indicators (some DiscardReason.output_truncated) = refl
reason_indicators (some DiscardReason.unclassified) = refl

-- Exactly one of the tier and the discard reason is set.
abbrev IsClassified : ClassifiedCandidate → Type 0
IsClassified c = set_fields c.tier + set_fields c.discard_reason ≡ 1

classify_prediction-IsClassified :
    (q : String) (i : ℕ) (p : PredictionRecord) → Ensures IsClassified (classify_prediction q i p)
unfolding classify_prediction classified post_init
classify_prediction-IsClassified q i p = ground arith

classify_all-IsClassified :
    (q : String) (i : ℕ) (ps : List PredictionRecord)
    → Ensures (All IsClassified) (classify_all q i ps)
unfolding classify_all
classify_all-IsClassified q i [] = tt
classify_all-IsClassified q i (p ∷ ps) =
    Ensures-bind IsClassified (All IsClassified) (classify_prediction q i p) _
      (classify_prediction-IsClassified q i p)
      λ c e h.
        Ensures-bind (All IsClassified) (All IsClassified) (classify_all q (suc i) ps) _
          (classify_all-IsClassified q (suc i) ps) λ cs f hs. (h, hs)

abbrev QuestionIsClassified : QuestionPreferenceResult → Type 0
QuestionIsClassified q = All IsClassified q.classified

build_questions-IsClassified :
    (questions : List (String × List PredictionRecord))
    → Ensures (All QuestionIsClassified) (build_questions questions)
unfolding build_questions build_preference_pairs_for_question
build_questions-IsClassified [] = tt
build_questions-IsClassified ((q, ps) ∷ questions) =
    Ensures-bind QuestionIsClassified (All QuestionIsClassified)
      (build_preference_pairs_for_question q ps) _
      (Ensures-bind (All IsClassified) QuestionIsClassified (classify_all q 0 ps) _
        (classify_all-IsClassified q 0 ps) λ cs e h. h)
      λ r e h.
        Ensures-bind (All QuestionIsClassified) (All QuestionIsClassified)
          (build_questions questions) _ (build_questions-IsClassified questions) λ rs f hs. (h, hs)

abbrev tier_count : PreferenceTier → List ClassifiedCandidate → ℕ
tier_count t cs = count_if (λ c. is_tier t c.tier) cs

abbrev reason_count : DiscardReason → List ClassifiedCandidate → ℕ
reason_count r cs = count_if (λ c. is_reason r c.discard_reason) cs

question_counts :
    (cs : List ClassifiedCandidate)
    → All IsClassified cs
    → (tier_count PreferenceTier.exec_ok_correct cs
          + tier_count PreferenceTier.exec_ok_incorrect cs
          + tier_count PreferenceTier.exec_failed cs)
        + (reason_count DiscardReason.harness_error cs
            + reason_count DiscardReason.undecidable cs
            + reason_count DiscardReason.output_truncated cs
            + reason_count DiscardReason.unclassified cs)
      ≡ length cs
question_counts [] h = refl
question_counts (c ∷ cs) h =
    omega (
      arith,
      question_counts cs h.1,
      tier_indicators c.tier,
      reason_indicators c.discard_reason,
      h.0,
    )

-- `sum(discard_counts.values())`
abbrev pub discarded_total : PreferenceDatasetReport → ℕ
discarded_total report =
    discard_counts report DiscardReason.harness_error
    + discard_counts report DiscardReason.undecidable
    + discard_counts report DiscardReason.output_truncated
    + discard_counts report DiscardReason.unclassified

report_counts :
    (qs : List QuestionPreferenceResult)
    → All QuestionIsClassified qs
    → kept_total (record { per_question = qs }) + discarded_total (record { per_question = qs })
      ≡ total_candidates (record { per_question = qs })
unfolding tier_counts discard_counts total_candidates
report_counts [] h = refl
report_counts (q ∷ qs) h = omega (arith, report_counts qs h.1, question_counts q.classified h.0)

-- What a dataset needs to be built from questions that were all classified.
abbrev pub IsBuildable : List (String × List PredictionRecord) → PreferenceDatasetReport → Type 0
IsBuildable questions report =
    (0 < length questions)
    × (0 < total_candidates report)
    × (discard_counts report DiscardReason.unclassified * 100 ≤ total_candidates report)

-- Questions that are all classified without an exception give a dataset exactly when there is a
-- question and a candidate, and at most one candidate in a hundred is UNCLASSIFIED.
pub build_preference_dataset_guards :
    (questions : List (String × List PredictionRecord)) (qs : List QuestionPreferenceResult)
    → build_questions questions ≡ ok qs
    → (build_preference_dataset questions ≡ ok (record { per_question = qs }))
      ↔ IsBuildable questions (record { per_question = qs })
unfolding build_preference_dataset assert_unclassified_rate_ok unclassified_rate
build_preference_dataset_guards questions qs e = (λ h. ground arith, λ h. ground arith)

always : (r : Result Exception (Unit {0})) → Ensures (λ u. Unit {0}) r
always (ok u) = tt
always (err e) = tt

abbrev ReportIsClassified : PreferenceDatasetReport → Type 0
ReportIsClassified report = All QuestionIsClassified report.per_question

build_preference_dataset-IsClassified :
    (questions : List (String × List PredictionRecord))
    → Ensures ReportIsClassified (build_preference_dataset questions)
unfolding build_preference_dataset
build_preference_dataset-IsClassified questions = elim (Bool-cases (length questions == 0)) [
  | inl e ↦ rw e tt
  | inr e ↦ rw e (
      Ensures-bind (All QuestionIsClassified) ReportIsClassified (build_questions questions) _
        (build_questions-IsClassified questions)
        λ qs f h.
          Ensures-bind (λ u. Unit {0}) ReportIsClassified
            (assert_unclassified_rate_ok (record { per_question = qs })
              harness_error_flood_threshold)
            _
            (always (
              assert_unclassified_rate_ok (record { per_question = qs })
                harness_error_flood_threshold))
            λ u g t. h)
]

-- In a dataset that was built, the counts of the three tiers and of the four reasons for a discard
-- add up to the number of candidates.
pub build_preference_dataset_counts :
    (questions : List (String × List PredictionRecord)) (report : PreferenceDatasetReport)
    → build_preference_dataset questions ≡ ok report
    → kept_total report + discarded_total report ≡ total_candidates report
build_preference_dataset_counts questions report h = report_counts report.per_question (
    Ensures_ok ReportIsClassified (build_preference_dataset questions) report
      (build_preference_dataset-IsClassified questions) h)
