-- ===== src/Eval/Metrics/Partition.antt =====
-- How the metrics account for every record.
use model_hub.Prelude.{
  ℕ, ◌+◌, ◌*◌, ◌≤◌, ◌≡◌, ◌≢◌, ◌↔◌, refl, sym, ◌∙◌, inl, inr, Bool, true, false, ◌&&◌, none, some,
  List, [], ◌∷◌, map, String, ok, ok-injective, arith, length, All, if◌then◌else◌, ◌==◌, Bool-cases,
  str_eq,
}
use model_hub.Prelude.Ratio.{ratio, ratio_lt}
use model_hub.Prelude.Counting.{count_if, filter_if, length-filter_if, count_if-le}
use model_hub.Prelude.Grouping.{distinct, sum_of, in_group, sum-groups_distinct}
use model_hub.Common.Errors.{ErrorCode}
use model_hub.Eval.Records.{
  PredictionRecord, is_output_truncated, is_harness_error, counts_toward_denominator,
}
use model_hub.Eval.Metrics.{
  harness_error_flood_threshold, EvalMetrics, DifficultySlice, has_equal, has_undecidable,
  slice_metrics, slices_by, compute_metrics, metrics_of, difficulty_label,
}

-- The runner (src/modelhub/eval/runner.py) compares only SQL that was executed, so only such a
-- record is meant to be undecidable.
abbrev pub IsConsistent : PredictionRecord → Type 0
IsConsistent p = has_undecidable p ≡ true → p.exec_code ≡ ErrorCode.exec_ok

-- A record counts toward the denominator or is excluded for exactly one reason.
excluded_once :
    (p : PredictionRecord)
    → IsConsistent p
    → (if counts_toward_denominator p then 1 else 0)
        + (if is_output_truncated p then 1 else 0)
        + (if has_undecidable p then 1 else 0)
        + (if is_harness_error p then 1 else 0)
      ≡ 1
unfolding counts_toward_denominator
excluded_once p h = ground arith

records_partition :
    (l : List PredictionRecord)
    → All IsConsistent l
    → count_if counts_toward_denominator l
        + count_if is_output_truncated l
        + count_if has_undecidable l
        + count_if is_harness_error l
      ≡ length l
records_partition [] h = omega arith
records_partition (p ∷ l) h = omega (arith, excluded_once p h.0, records_partition l h.1)

compute_metrics-ok :
    (records : List PredictionRecord) {m : EvalMetrics}
    → compute_metrics records ≡ ok m
    → m ≡ metrics_of records
unfolding compute_metrics
compute_metrics-ok records h = elim (Bool-cases (length records == 0)) [
  | inl e ↦ cc (rw (e, compute_metrics) at h)
  | inr e ↦
      elim (Bool-cases (
        ratio_lt harness_error_flood_threshold
          (ratio (count_if is_harness_error records) (length records)))) [
            | inl f ↦ cc (rw (f, compute_metrics) at (rw (e, compute_metrics) at h))
            | inr f ↦ sym (ok-injective (rw (f, compute_metrics) at (rw (e, compute_metrics) at h)))
          ]
]

-- The samples of a report are those of the denominator, the truncated ones, the undecidable ones
-- and the harness errors, each counted once, if every undecidable record was executed.
pub compute_metrics_partition :
    (records : List PredictionRecord) {m : EvalMetrics}
    → All IsConsistent records
    → compute_metrics records ≡ ok m
    → m.total_samples
      ≡ m.denominator
        + m.excluded_output_truncated
        + m.excluded_undecidable
        + count_if is_harness_error records
unfolding metrics_of
compute_metrics_partition records h e =
    let same = compute_metrics-ok records e in
    rw same (
      omega
        (arith, records_partition records h, length-filter_if counts_toward_denominator records))

abbrev is_flooded : List PredictionRecord → Bool
is_flooded records =
    ratio_lt harness_error_flood_threshold
      (ratio (count_if is_harness_error records) (length records))

empty_refused : {m : EvalMetrics} → compute_metrics [] ≡ ok m → ⊥
unfolding compute_metrics
empty_refused h = cc

flood_refused :
    (records : List PredictionRecord) {m : EvalMetrics}
    → (length records == 0) ≡ false
    → is_flooded records ≡ true
    → compute_metrics records ≡ ok m
    → ⊥
unfolding compute_metrics
flood_refused records n f h = cc (rw (f, compute_metrics) at (rw (n, compute_metrics) at h))

rest_accepted :
    (records : List PredictionRecord)
    → (length records == 0) ≡ false
    → is_flooded records ≡ false
    → compute_metrics records ≡ ok (metrics_of records)
unfolding compute_metrics
rest_accepted records n f = rw (n, compute_metrics) (rw (f, compute_metrics) refl)

-- Metrics are produced exactly for a prediction set that is not empty and whose harness errors are
-- at most one in a hundred; otherwise an error is raised.
pub compute_metrics_total :
    (records : List PredictionRecord)
    → ((m : EvalMetrics) × (compute_metrics records ≡ ok m))
      ↔ ((records ≢ []) × (100 * count_if is_harness_error records ≤ length records))
compute_metrics_total [] = (λ h. absurd (empty_refused h.1), λ h. absurd (h.0 refl))
compute_metrics_total (p ∷ l) = elim (Bool-cases (is_flooded (p ∷ l))) [
  | inl e ↦
      (λ h. absurd (flood_refused (p ∷ l) (ground arith) e h.1), λ h. absurd (ground (arith, h.1)))
  | inr e ↦ (
    λ h. (λ q. cc, ground arith),
    λ h. (metrics_of (p ∷ l), rest_accepted (p ∷ l) (ground arith) e),
  )
]

count_if-true : (l : List PredictionRecord) → count_if (λ p. true) l ≡ length l
count_if-true [] = refl
count_if-true (a ∷ l) = omega (arith, count_if-true l)

-- Sum of one count over the slices of a report.
abbrev pub sum_slices : (DifficultySlice → ℕ) → List (String × DifficultySlice) → ℕ
sum_slices f l = sum_of (λ e. f e.1) l

sum_of-map :
    (g : String → ℕ) (f : String → String × DifficultySlice) (h : DifficultySlice → ℕ)
    (ks : List String)
    → ((k : String) → h (f k).1 ≡ g k)
    → sum_of (λ (e : String × DifficultySlice). h e.1) (map f ks) ≡ sum_of g ks
sum_of-map g f h [] e = refl
sum_of-map g f h (k ∷ ks) e = omega (arith, e k, sum_of-map g f h ks e)

count_if-filter_if :
    (p q : PredictionRecord → Bool) (l : List PredictionRecord)
    → count_if p (filter_if q l) ≡ count_if (λ a. p a && q a) l
count_if-filter_if p q [] = refl
count_if-filter_if p q (a ∷ l) = ground (arith, count_if-filter_if p q l)

module _ (key : PredictionRecord → String) (records : List PredictionRecord) where
  -- The records of one group, by a count that looks at each record alone.
  slices_count :
      (f : DifficultySlice → ℕ) (p : PredictionRecord → Bool)
      → ((l : List PredictionRecord) → f (slice_metrics l) ≡ count_if p l)
      → sum_slices f (slices_by key records) ≡ count_if p records
  unfolding slices_by
  slices_count f p h =
      sum_of-map (λ k. count_if (in_group key p k) records)
        (λ k. (k, slice_metrics (filter_if (λ a. str_eq (key a) k) records))) f
        (distinct (map key records))
        (λ k.
          h (filter_if (λ a. str_eq (key a) k) records)
          ∙ count_if-filter_if p (λ a. str_eq (key a) k) records)
      ∙ sum-groups_distinct key p records

  slices_sum :
      (sum_slices (λ s. s.total) (slices_by key records) ≡ length records)
      × (sum_slices (λ s. s.denominator) (slices_by key records)
          ≡ length (filter_if counts_toward_denominator records))
      × (sum_slices (λ s. s.equal_count) (slices_by key records)
          ≡ count_if has_equal (filter_if counts_toward_denominator records))
  unfolding slice_metrics
  slices_sum = (
    slices_count (λ s. s.total) (λ p. true) (λ l. sym (count_if-true l)) ∙ count_if-true records,
    slices_count (λ s. s.denominator) counts_toward_denominator
          (λ l. length-filter_if counts_toward_denominator l)
        ∙ sym (length-filter_if counts_toward_denominator records),
    slices_count (λ s. s.equal_count) (λ p. has_equal p && counts_toward_denominator p)
          (λ l. count_if-filter_if has_equal counts_toward_denominator l)
        ∙ sym (count_if-filter_if has_equal counts_toward_denominator records),
  )

-- In a report the slices by database, and those by difficulty, add up to the headline counts:
-- samples, denominator and correct answers.
pub compute_metrics_slices :
    (records : List PredictionRecord) {m : EvalMetrics}
    → compute_metrics records ≡ ok m
    → (sum_slices (λ s. s.total) m.by_db ≡ m.total_samples)
      × (sum_slices (λ s. s.denominator) m.by_db ≡ m.denominator)
      × (sum_slices (λ s. s.equal_count) m.by_db ≡ m.equal_count)
      × (sum_slices (λ s. s.total) m.by_difficulty ≡ m.total_samples)
      × (sum_slices (λ s. s.denominator) m.by_difficulty ≡ m.denominator)
      × (sum_slices (λ s. s.equal_count) m.by_difficulty ≡ m.equal_count)
unfolding metrics_of
compute_metrics_slices records e =
    let (a, b, c) = slices_sum (λ p. p.db_id) records in
    let (a', b', c') = slices_sum difficulty_label records in
    rw (compute_metrics-ok records e) (a, b, c, a', b', c')

-- The accuracy of a report is missing exactly when the denominator is 0, and else it is the number
-- of correct answers over the denominator, which is no less than that number.
pub compute_metrics_accuracy :
    (records : List PredictionRecord) {m : EvalMetrics}
    → compute_metrics records ≡ ok m
    → (m.execution_accuracy
        ≡ (if m.denominator == 0 then none else some (ratio m.equal_count m.denominator)))
      × (m.equal_count ≤ m.denominator)
unfolding metrics_of
compute_metrics_accuracy records e =
    rw (compute_metrics-ok records e)
      (ground arith, count_if-le has_equal (filter_if counts_toward_denominator records))
