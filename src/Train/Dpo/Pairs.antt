-- ===== src/Train/Dpo/Pairs.antt =====
-- train/dpo.py: which preference pairs a question gives.
use model_hub.Prelude.{
  ℕ, ◌+◌, ◌<◌, ◌≡◌, ◌≢◌, ◌↔◌, ◌∙◌, sym, inl, inr, refl, some, List, String, ok, get_elem?, In,
  arith, Result-cases, ok-injective,
}
use model_hub.Eval.Records.{PredictionRecord}
use model_hub.Train.Dpo.{
  PreferenceTier, tier_rank, ClassifiedCandidate, classify_prediction, classify_all, PreferencePair,
  QuestionPreferenceResult, KeptCandidate, kept_candidates, all_pairs_of,
  build_preference_pairs_for_question,
}
use model_hub.Train.Dpo.Kept.{
  classify_prediction-fields, at_index, classify_all-In, kept_candidates-In, Pairs, pairs_with-In,
  all_pairs_of-In,
}

-- The prediction at place `i` is sampled for the question `q` and is given the tier `t`.
abbrev HasTier : String → List PredictionRecord → ℕ → PredictionRecord → PreferenceTier → Type 0
HasTier q ps i p t =
    (c : ClassifiedCandidate) × (get_elem? ps i ≡ some p)
    × (classify_prediction q i p ≡ ok c)
    × (c.tier ≡ some t)

-- Two of the predictions have tiers, the first a better one, and the pair prefers the first.
abbrev pub Prefers : String → List PredictionRecord → PreferencePair → Type 0
Prefers q ps pair =
    (i j : ℕ) × (a d : PredictionRecord) × (s t : PreferenceTier) × HasTier q ps i a s
    × HasTier q ps j d t
    × (tier_rank s < tier_rank t)
    × (pair ≡ record {
      question_id = q;
      chosen_sql = a.predicted_sql;
      rejected_sql = d.predicted_sql;
      chosen_tier = s;
      rejected_tier = t;
    })

module _ (q : String) (ps : List PredictionRecord) (cs : List ClassifiedCandidate) where
  abbrev kept : List KeptCandidate
  kept = kept_candidates cs

  kept-HasTier :
      classify_all q 0 ps ≡ ok cs
      → (k : KeptCandidate) → In k kept
      → (i : ℕ) × (p : PredictionRecord) × HasTier q ps i p k.tier
        × (k.candidate.candidate_index ≡ i)
        × (k.candidate.predicted_sql ≡ p.predicted_sql)
  kept-HasTier h k m =
      let (at, t) = (kept_candidates-In cs k).0 m in
      let (i, p, g, w) = (classify_all-In q 0 ps cs k.candidate h).0 at in
      let w' = at_index q (0 + i) i p k.candidate (omega arith) w in
      let f = classify_prediction-fields q i p k.candidate w' in
      (i, p, (k.candidate, g, w', t), f.0, f.1)

  HasTier-kept :
      classify_all q 0 ps ≡ ok cs
      → (i : ℕ) (p : PredictionRecord) (t : PreferenceTier) (h : HasTier q ps i p t)
      → In (record { candidate = h.0; tier = t }) kept
  HasTier-kept h i p t (c, g, w, e) =
      (kept_candidates-In cs (record { candidate = c; tier = t })).1
        ((classify_all-In q 0 ps cs c h).1 (i, p, g, at_index q i (0 + i) p c (omega arith) w), e)

-- At one place there is one prediction, and so one tier.
HasTier-unique :
    (q : String) (ps : List PredictionRecord) (i j : ℕ) (a d : PredictionRecord)
    (s t : PreferenceTier)
    → i ≡ j
    → HasTier q ps i a s
    → HasTier q ps j d t
    → s ≡ t
HasTier-unique q ps i j a d s t e (c, g, w, f) (c', g', w', f') =
    let same : a ≡ d = ground arith in
    let again : classify_prediction q i a ≡ ok c' = rw (e, same) w' in
    let same_c : c ≡ c' = ok-injective (sym w ∙ again) in cc

module _ (q : String) (ps : List PredictionRecord) (cs : List ClassifiedCandidate)
    (classifies : classify_all q 0 ps ≡ ok cs) (pair : PreferencePair) where
  abbrev kept_all : List KeptCandidate
  kept_all = kept_candidates cs

  pair-Prefers :
      (a d : KeptCandidate) → In a kept_all → In d kept_all → Pairs q a d pair → Prefers q ps pair
  pair-Prefers a d m n (apart, better, same) =
      let (i, p, h, at, sql) = kept-HasTier q ps cs classifies a m in
      let (j, p', h', at', sql') = kept-HasTier q ps cs classifies d n in
      (i, j, p, p', a.tier, d.tier, h, h', better, same ∙ rw (sql, sql') refl)

  all_pairs-Prefers : In pair (all_pairs_of q kept_all kept_all) ↔ Prefers q ps pair
  all_pairs-Prefers = (
    λ h.
        let (a, m, w) = (all_pairs_of-In q kept_all kept_all pair).0 h in
        let (d, n, made) = (pairs_with-In q a kept_all pair).0 w in pair-Prefers a d m n made,
    λ (i, j, p, p', s, t, h, h', better, same).
        let a : KeptCandidate = record { candidate = h.0; tier = s } in
        let d : KeptCandidate = record { candidate = h'.0; tier = t } in
        let f = classify_prediction-fields q i p h.0 h.2 in
        let f' = classify_prediction-fields q j p' h'.0 h'.2 in
        let apart : h.0.candidate_index ≢ h'.0.candidate_index = λ e.
          let u = HasTier-unique q ps i j p p' s t (sym f.0 ∙ e ∙ f'.0) h h' in
          absurd (ground arith) in
        (all_pairs_of-In q kept_all kept_all pair).1 (
          a,
          HasTier-kept q ps cs classifies i p s h,
          (pairs_with-In q a kept_all pair).1 (
            d,
            HasTier-kept q ps cs classifies j p' t h',
            (apart, better, same ∙ rw (f.1, f'.1) refl),
          ),
        ),
  )

-- When the predictions of a question are classified without an exception, its pairs are exactly
-- those of two predictions that have tiers, the chosen one's strictly better, each pair with the
-- SQL and the tiers of its two predictions.
pub preference_pairs_iff :
    (q : String) (ps : List PredictionRecord) (r : QuestionPreferenceResult)
    → build_preference_pairs_for_question q ps ≡ ok r
    → (pair : PreferencePair) → In pair r.pairs ↔ Prefers q ps pair
unfolding build_preference_pairs_for_question
preference_pairs_iff q ps r h pair = elim (Result-cases (classify_all q 0 ps)) [
  | inl (cs, e) ↦
      let made : r.pairs ≡ all_pairs_of q (kept_candidates cs) (kept_candidates cs) =
        ground arith in
      rw made (all_pairs-Prefers q ps cs e pair)
  | inr (x, e) ↦ absurd (ground arith)
]
