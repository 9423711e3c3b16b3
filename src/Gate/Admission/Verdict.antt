-- ===== src/Gate/Admission/Verdict.antt =====
-- What the verdict of the five gates says of a candidate.
use model_hub.Prelude.{
  ◌≡◌, refl, ◌≤◌, ◌*◌, ◌↔◌, inl, inr, true, false, not, Option, none, some, List, [], ◌∷◌, map,
  String, ok, err, length, length-map, arith, Bool-cases, Result-cases,
}
use model_hub.Prelude.Int.{ℤ, IsWithin}
use model_hub.Prelude.Ratio.{Ratio}
use model_hub.Prelude.Counting.{any_if, count_if, filter_if, length-filter_if}
use model_hub.Common.Errors.{ErrorCode, value_error}
use model_hub.Common.Manifest.{is_polluted}
use model_hub.Data.Schema.{NormalizedSample, is_crud}
use model_hub.Eval.Records.{PredictionRecord}
use model_hub.Gate.Types.{GateDecision, is_rejected, decision}
use model_hub.Gate.Checks.{
  Checked, check_accuracy_gate, check_truncation_gate, check_pollution_gate, check_safety_gate,
  is_unblocked,
}
use model_hub.Gate.Regression.{find_regressions, check_regression_gate}
use model_hub.Gate.Admission.{AdmissionGateConfig, Candidacy, run_admission_gate}

-- The accuracy was measured, and is no lower than the floor.
abbrev pub AccurateEnough : Ratio → Option Ratio → Type 0
AccurateEnough floor none = ⊥
AccurateEnough floor (some a) = floor.num * a.den ≤ a.num * floor.den

-- There is no baseline, or the regressions against it are within the limit.
abbrev pub FewRegressions : ℤ → Option (List PredictionRecord) → List PredictionRecord → Type 0
FewRegressions limit none candidate = Unit
FewRegressions limit (some baseline) candidate =
    IsWithin (length (find_regressions baseline candidate)) limit

-- There is no adversarial sample, or those that ran are within the limit.
abbrev pub FewUnblocked : (String → String → ErrorCode) → ℤ → List NormalizedSample → Type 0
FewUnblocked execute limit [] = Unit
FewUnblocked execute limit (x ∷ xs) = IsWithin (count_if (is_unblocked execute) (x ∷ xs)) limit

module _ (execute : String → String → ErrorCode) (c : Candidacy)
    (config : AdmissionGateConfig) where
  -- What a candidate must meet to be admitted.
  pub record IsAdmissible : Type 0 where
    pub is_clean : is_polluted c.manifest ≡ false
    pub is_accurate :
        AccurateEnough config.accuracy.min_execution_accuracy c.metrics.execution_accuracy
    pub is_finished :
        c.metrics.output_truncated_rate.num * config.truncation.max_output_truncated_rate.den
        ≤ config.truncation.max_output_truncated_rate.num * c.metrics.output_truncated_rate.den
    pub is_safe : FewUnblocked execute config.safety.max_allowed_unblocked c.adversarial_samples
    pub is_steady :
        FewRegressions config.regression.max_regressions c.baseline_predictions
          c.candidate_predictions

  pollution_passes :
      (is_rejected (check_pollution_gate c.manifest) ≡ false) ↔ (is_polluted c.manifest ≡ false)
  unfolding check_pollution_gate
  pollution_passes = (λ h. ground arith, λ h. ground arith)

  accuracy_passes :
      (is_rejected (check_accuracy_gate c.metrics config.accuracy) ≡ false)
      ↔ AccurateEnough config.accuracy.min_execution_accuracy c.metrics.execution_accuracy
  unfolding check_accuracy_gate
  accuracy_passes = (λ h. ground arith, λ h. ground arith)

  truncation_passes : (is_rejected (check_truncation_gate c.metrics config.truncation) ≡ false) ↔ (
      c.metrics.output_truncated_rate.num * config.truncation.max_output_truncated_rate.den
      ≤ config.truncation.max_output_truncated_rate.num * c.metrics.output_truncated_rate.den)
  unfolding check_truncation_gate
  truncation_passes = (λ h. ground arith, λ h. ground arith)

  regression_passes :
      (is_rejected
          (check_regression_gate c.baseline_predictions c.candidate_predictions config.regression)
        ≡ false)
      ↔ FewRegressions config.regression.max_regressions c.baseline_predictions
          c.candidate_predictions
  unfolding check_regression_gate
  regression_passes = (λ h. ground arith, λ h. ground arith)

  safety_passes :
      (samples : List NormalizedSample) {g : Checked}
      → check_safety_gate execute samples config.safety ≡ ok g
      → (is_rejected g ≡ false) ↔ FewUnblocked execute config.safety.max_allowed_unblocked samples
  unfolding check_safety_gate
  safety_passes [] h = (λ e. tt, λ e. ground arith)
  safety_passes (x ∷ xs) {g} h = elim (Bool-cases (any_if (λ a. not (is_crud a.source)) (x ∷ xs))) [
    | inl e ↦ absurd (ground arith)
    | inr e ↦
        let names =
          length-map (λ (a : NormalizedSample). a.sample_id)
            (filter_if (is_unblocked execute) (x ∷ xs)) in
        let counted = length-filter_if (is_unblocked execute) (x ∷ xs) in
        (λ k. ground arith, λ k. ground arith)
  ]

  all_pass :
      {g : Checked}
      → check_safety_gate execute c.adversarial_samples config.safety ≡ ok g
      → (decision (
            check_pollution_gate c.manifest
            ∷ check_accuracy_gate c.metrics config.accuracy
            ∷ check_truncation_gate c.metrics config.truncation
            ∷ g
            ∷ check_regression_gate c.baseline_predictions c.candidate_predictions config.regression
            ∷ [])
          ≡ GateDecision.pass)
        ↔ IsAdmissible
  unfolding decision
  all_pass h = (
    λ e. record {
      is_clean = pollution_passes.0 (ground arith);
      is_accurate = accuracy_passes.0 (ground arith);
      is_finished = truncation_passes.0 (ground arith);
      is_safe = (safety_passes c.adversarial_samples h).0 (ground arith);
      is_steady = regression_passes.0 (ground arith);
    },
    λ a.
        let p1 = pollution_passes.1 a.is_clean in
        let p2 = accuracy_passes.1 a.is_accurate in
        let p3 = truncation_passes.1 a.is_finished in
        let p4 = (safety_passes c.adversarial_samples h).1 a.is_safe in
        let p5 = regression_passes.1 a.is_steady in ground arith,
  )

  safety_named :
      (samples : List NormalizedSample) {g : Checked}
      → any_if (λ a. not (is_crud a.source)) samples ≡ false
      → check_safety_gate execute samples config.safety ≡ ok g
      → g.gate_name ≡ "safety"
  unfolding check_safety_gate
  safety_named samples h e = ground arith

  safety_total :
      (samples : List NormalizedSample)
      → any_if (λ a. not (is_crud a.source)) samples ≡ false
      → (g : Checked) × (check_safety_gate execute samples config.safety ≡ ok g)
        × (g.gate_name ≡ "safety")
  unfolding check_safety_gate
  safety_total samples h = elim (Result-cases (check_safety_gate execute samples config.safety)) [
    | inl (g, e) ↦ (g, e, safety_named samples h e)
    | inr (x, e) ↦ absurd (ground arith)
  ]

  named :
      (g : Checked)
      → g.gate_name ≡ "safety"
      → map
          (λ (k : Checked). k.gate_name)
          (check_pollution_gate c.manifest
            ∷ check_accuracy_gate c.metrics config.accuracy
            ∷ check_truncation_gate c.metrics config.truncation
            ∷ g
            ∷ check_regression_gate c.baseline_predictions c.candidate_predictions config.regression
            ∷ [])
        ≡ "pollution" ∷ "accuracy" ∷ "truncation" ∷ "safety" ∷ "regression" ∷ []
  unfolding check_pollution_gate check_accuracy_gate check_truncation_gate check_regression_gate
  named g e = ground arith

  -- An adversarial sample that is not a Mini-Dev CRUD sample makes the call raise a ValueError.
  -- Otherwise the verdict lists all five gates, rejecting ones among them, and it is PASS exactly
  -- for a candidate whose manifest is clean, whose accuracy was measured and meets the floor, whose
  -- truncation rate is within its limit, whose adversarial statements that ran, if there are any
  -- samples, are within theirs, and whose regressions against the baseline, if there is one, are
  -- within theirs; a negative limit admits no count.
  pub run_admission_gate_admits :
      ((any_if (λ a. not (is_crud a.source)) c.adversarial_samples ≡ true)
        → run_admission_gate execute c config ≡ err value_error)
      × ((any_if (λ a. not (is_crud a.source)) c.adversarial_samples ≡ false)
          → (gs : List Checked) × (run_admission_gate execute c config ≡ ok gs)
            × (map (λ (k : Checked). k.gate_name) gs
                ≡ "pollution" ∷ "accuracy" ∷ "truncation" ∷ "safety" ∷ "regression" ∷ [])
            × ((decision gs ≡ GateDecision.pass) ↔ IsAdmissible))
  unfolding run_admission_gate
  run_admission_gate_admits = (
    λ h. unfold check_safety_gate in rw (h, check_safety_gate) refl,
    λ h.
        let (g, e, n) = safety_total c.adversarial_samples h in
        (_, rw (e, run_admission_gate) refl, named g n, all_pass e),
  )
