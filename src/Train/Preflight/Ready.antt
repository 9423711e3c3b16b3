-- ===== src/Train/Preflight/Ready.antt =====
-- train/runner.py: what a preflight that passes has made sure of.
use model_hub.Prelude.{
  ℕ, ◌≤◌, ◌≡◌, inl, inr, refl, ap, true, false, map, Option, none, some, List, [], ◌∷◌, String, ok,
  err, ◌>>=◌, length, All, ◌==◌, if◌then◌else◌, arith, Bool-cases, Ensures, Ensures-bind,
  Ensures_ok, Ensures-bind_any,
}
use model_hub.Prelude.Ratio.{Ratio}
use model_hub.Train.Preflight.Coverage.{IsTrained, compute_trainable_coverage-IsTrained}
use model_hub.Common.Errors.{value_error}
use model_hub.Common.Manifest.{KernelStatus}
use model_hub.Data.Schema.{NormalizedSample}
use model_hub.Train.Preflight.{
  validate_each, validate_dataset_schema, compute_token_length_stats, TokenLengthStats,
  compute_trainable_coverage, assert_full_layer_coverage, uncovered_layers, covered, LayerCoverage,
  estimate_training_memory, assert_fits_in_memory, fits, headroom_pct, MemoryEstimate,
  MemoryEstimateConfig, SftConfig, CoverageConfig, PreflightReport, run_sft_preflight,
}

-- The samples are all the records.
validate_each-map :
    (records : List (Option NormalizedSample))
    → Ensures (λ ss. map some ss ≡ records) (validate_each records)
unfolding validate_each
validate_each-map [] = refl
validate_each-map (none ∷ records) = tt
validate_each-map (some s ∷ records) =
    Ensures-bind (λ ss. map some ss ≡ records) (λ ss. map some ss ≡ some s ∷ records)
      (validate_each records) _ (validate_each-map records) λ ss e h. ap (λ rs. some s ∷ rs) h

validate_dataset_schema-map :
    (records : List (Option NormalizedSample))
    → Ensures (λ ss. map some ss ≡ records) (validate_dataset_schema records)
unfolding validate_dataset_schema
validate_dataset_schema-map records = elim (Bool-cases (length records == 0)) [
  | inl e ↦ rw e tt
  | inr e ↦ rw e (validate_each-map records)
]

All-covered :
    (layers : List LayerCoverage)
    → length (uncovered_layers layers) ≡ 0
    → All (λ l. covered l ≡ true) layers
unfolding uncovered_layers
All-covered [] h = tt
All-covered (l ∷ layers) h = elim (Bool-cases (covered l)) [
  | inl e ↦ (e, All-covered layers (ground arith))
  | inr e ↦ absurd (ground arith)
]

-- As many layers as expected, each with a module that is trained.
abbrev IsFull : ℕ → List LayerCoverage → Type 0
IsFull n layers = (length layers ≡ n) × All (λ l. covered l ≡ true) layers

assert_full_layer_coverage-IsFull :
    (layers : List LayerCoverage) (n : ℕ)
    → assert_full_layer_coverage layers n ≡ ok tt
    → IsFull n layers
unfolding assert_full_layer_coverage
assert_full_layer_coverage-IsFull layers n h =
    let none_left : length (uncovered_layers layers) ≡ 0 = ground arith in
    (ground arith, All-covered layers none_left)

assert_fits_in_memory-le :
    (e : MemoryEstimate) → assert_fits_in_memory e ≡ ok tt → e.estimated_bytes ≤ e.usable_bytes
unfolding assert_fits_in_memory fits
assert_fits_in_memory-le e h = ground arith

module _ (scaled : ℕ → Ratio → ℕ) (raw : List (Option NormalizedSample)) (token_counts : List ℕ)
    (names : List (Option (ℕ × String))) (sft : SftConfig) (coverage : CoverageConfig)
    (memory : MemoryEstimateConfig) (kernel_status : KernelStatus) where
  -- What holds of a run that may start.
  abbrev pub IsReady : PreflightReport → Type 0
  IsReady report =
      ((samples : List NormalizedSample) × (map some samples ≡ raw)
        × (report.dataset_size ≡ length samples))
      × (length token_counts ≡ report.dataset_size)
      × (length report.coverage_report ≡ coverage.total_layers)
      × All (IsTrained names coverage.target_modules) report.coverage_report
      × (kernel_status.degraded ≡ false)
      × ((e : MemoryEstimate) × (estimate_training_memory scaled sft.batch_size sft.max_seq_len
              memory
            ≡ ok e)
          × (e.estimated_bytes ≤ e.usable_bytes))

  after_coverage :
      (samples : List NormalizedSample) (stats : TokenLengthStats) (layers : List LayerCoverage)
      → map some samples ≡ raw
      → length token_counts ≡ length samples
      → length layers ≡ coverage.total_layers
      → All (IsTrained names coverage.target_modules) layers
      → Ensures IsReady (
          if kernel_status.degraded
          then err value_error
          else estimate_training_memory scaled sft.batch_size sft.max_seq_len memory >>= λ estimate.
              assert_fits_in_memory estimate >>= λ v. headroom_pct estimate >>= λ headroom.
              ok (record {
                dataset_size = length samples;
                token_length_stats = stats;
                coverage_report = layers;
                memory_headroom_pct = headroom;
              }))
  after_coverage samples stats layers all counts full trained =
      elim (Bool-cases kernel_status.degraded) [
        | inl k ↦ rw k tt
        | inr k ↦ simp k (
            Ensures-bind_any IsReady
              (estimate_training_memory scaled sft.batch_size sft.max_seq_len memory) _
              λ estimate e. Ensures-bind_any IsReady (assert_fits_in_memory estimate) _ λ v f.
                Ensures-bind_any IsReady (headroom_pct estimate) _ λ headroom g. (
                  (samples, all, refl),
                  counts,
                  full,
                  trained,
                  k,
                  (estimate, e, assert_fits_in_memory-le estimate f),
                ))
      ]

  run_sft_preflight-Ensures :
      Ensures IsReady
        (run_sft_preflight scaled raw token_counts names sft coverage memory kernel_status)
  unfolding run_sft_preflight
  run_sft_preflight-Ensures =
      Ensures-bind (λ ss. map some ss ≡ raw) IsReady (validate_dataset_schema raw) _
        (validate_dataset_schema-map raw)
        λ samples e all. elim (Bool-cases (length token_counts == length samples)) [
          | inr unequal ↦ rw unequal tt
          | inl equal ↦ rw equal (
              Ensures-bind_any IsReady (compute_token_length_stats token_counts sft.max_seq_len) _
                λ stats e₂.
                  Ensures-bind_any IsReady
                    (compute_trainable_coverage names coverage.target_modules) _
                    λ layers e₃.
                      Ensures-bind_any IsReady
                        (assert_full_layer_coverage layers coverage.total_layers) _
                        λ u e₄.
                          let full =
                            assert_full_layer_coverage-IsFull layers coverage.total_layers e₄ in
                          after_coverage samples stats layers all (ground arith) full.0 (
                            compute_trainable_coverage-IsTrained names coverage.target_modules
                              layers e₃ full.1))
        ]

  -- In a preflight that passes, every record is a sample, there is a token count for each, the
  -- report has the expected number of layers, in every one of them the model has a module that is a
  -- target, the kernels are not degraded, and the estimated memory fits.
  pub run_sft_preflight-IsReady :
      (report : PreflightReport)
      → run_sft_preflight scaled raw token_counts names sft coverage memory kernel_status
        ≡ ok report
      → IsReady report
  run_sft_preflight-IsReady report h =
      Ensures_ok IsReady
        (run_sft_preflight scaled raw token_counts names sft coverage memory kernel_status) report
        run_sft_preflight-Ensures h
