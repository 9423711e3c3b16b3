-- ===== src/Compare/Comparator/Verdict.antt =====
-- What a verdict of the comparator says of the two result sets.
use model_hub.Prelude.{
  ℕ, ◌≡◌, refl, ◌↔◌, inl, inr, true, false, ◌&&◌, ◌||◌, some, List, [], ◌∷◌, ◌++◌, In, All-In_left,
  All-In_right, Result, ok, err, ◌==◌, arith, Bool-cases, Option-cases, Result-cases, length,
  if◌then◌else◌,
}
use model_hub.Prelude.Counting.{count_if}
use model_hub.Common.Errors.{Exception}
use model_hub.Compare.Types.{
  ComparisonOutcome, equal_outcome, not_equal_outcome, undecidable_outcome, too_large,
  is_undecidable,
}
use model_hub.Compare.Values.{
  Doubles, ColumnMatchMode, RowOrder, DuplicateRowMode, ComparatorConfig,
}
use model_hub.Compare.Comparator.{
  Row, ResultSet, reconcile_columns, rows_equal, compare_rows, compare_ordered, CanonicalRow,
  canonicalize_rows, canonical_row_eq, same_rows, compare_unordered, is_empty,
  compare_result_sets_inner, compare_result_sets, all_hashable,
}
use model_hub.Compare.Comparator.Multiset.{same_multiset, same_set, IsEqualityOn, same_multiset_lem}

-- An outcome that is EQUAL or NOT_EQUAL, or an error.
abbrev Decides : Result Exception ComparisonOutcome → Type 0
Decides (ok o) = is_undecidable (some o.result) ≡ false
Decides (err e) = Unit

module _ (d : Doubles) (config : ComparatorConfig d) where
  compare_rows-Decides : (ps gs : List (Row d)) → Decides (compare_rows d config ps gs)
  unfolding compare_rows
  compare_rows-Decides [] gs = refl
  compare_rows-Decides (p ∷ ps) [] = refl
  compare_rows-Decides (p ∷ ps) (g ∷ gs) = elim (Bool-cases (length p == length g)) [
    | inr n ↦ rw (n, compare_rows) refl
    | inl n ↦ elim (Result-cases (rows_equal d config p g)) [
      | inr (x, e) ↦ rw (n, compare_rows) (rw (e, compare_rows) tt)
      | inl (b, e) ↦ elim (Bool-cases b) [
        | inl t ↦ rw (n, compare_rows) (rw (e, compare_rows) (rw t (compare_rows-Decides ps gs)))
        | inr f ↦ rw (n, compare_rows) (rw (e, compare_rows) (rw f refl))
      ]
    ]
  ]

  compare_ordered-Decides : (ps gs : List (Row d)) → Decides (compare_ordered d config ps gs)
  unfolding compare_ordered
  compare_ordered-Decides ps gs = elim (Bool-cases (length ps == length gs)) [
    | inr n ↦ rw (n, compare_ordered) refl
    | inl n ↦ rw (n, compare_ordered) (compare_rows-Decides ps gs)
  ]

  compare_unordered-Decides : (ps gs : List (Row d)) → Decides (compare_unordered d config ps gs)
  unfolding compare_unordered
  compare_unordered-Decides ps gs = ground arith

  -- Where the result sets are complete.
  complete-Decides :
      (predicted gold : ResultSet d)
      → (predicted.truncated || gold.truncated) ≡ false
      → Decides (compare_result_sets_inner d predicted gold config)
  unfolding compare_result_sets_inner
  complete-Decides predicted gold h =
      elim (Result-cases (reconcile_columns d predicted gold config)) [
        | inr (x, e) ↦ ground arith
        | inl (o, e) ↦ elim (Option-cases o) [
          | inl q ↦ ground arith
          | inr (rows, q) ↦ ground (
            arith,
            compare_ordered-Decides rows.0 rows.1,
            compare_unordered-Decides rows.0 rows.1,
          )
        ]
      ]

  -- The comparison never raises, and it is UNDECIDABLE as too large exactly when one of the result
  -- sets was truncated: a truncated result set is never EQUAL to anything.
  pub compare_result_sets_too_large :
      (predicted gold : ResultSet d)
      → (compare_result_sets d predicted gold config ≡ undecidable_outcome too_large)
        ↔ ((predicted.truncated || gold.truncated) ≡ true)
  unfolding compare_result_sets
  compare_result_sets_too_large predicted gold =
      elim (Bool-cases (predicted.truncated || gold.truncated)) [
        | inl t ↦ (λ h. t, λ h. unfold compare_result_sets_inner in rw t refl)
        | inr f ↦ (λ h. absurd (ground (arith, complete-Decides predicted gold f)), λ h. cc)
      ]

  -- Two complete result sets without rows and with as many columns are EQUAL when columns match by
  -- position, whatever `both_empty_is_equal` says.
  pub compare_result_sets_both_empty :
      (predicted gold : ResultSet d)
      → (predicted.truncated || gold.truncated) ≡ false
      → predicted.rows ≡ []
      → gold.rows ≡ []
      → config.column_match_mode ≡ ColumnMatchMode.by_position
      → length predicted.columns ≡ length gold.columns
      → compare_result_sets d predicted gold config ≡ equal_outcome
  unfolding compare_result_sets compare_result_sets_inner reconcile_columns compare_ordered
      compare_unordered canonicalize_rows same_rows same_multiset same_set
  compare_result_sets_both_empty predicted gold t p g m n = ground arith

  multiset_verdict :
      (predicted gold : ResultSet d) {ps gs : List (CanonicalRow d)} {m n : ℕ}
      → (predicted.truncated || gold.truncated) ≡ false
      → (is_empty d predicted.rows && is_empty d gold.rows) ≡ false
      → config.column_match_mode ≡ ColumnMatchMode.by_position
      → config.row_order ≡ RowOrder.unordered
      → config.duplicate_row_mode ≡ DuplicateRowMode.multiset
      → length predicted.columns ≡ length gold.columns
      → canonicalize_rows d config predicted.rows 0 ≡ ok (ps, m)
      → canonicalize_rows d config gold.rows m ≡ ok (gs, n)
      → all_hashable d (ps ++ gs) ≡ true
      → compare_result_sets d predicted gold config
        ≡ (if same_multiset (canonical_row_eq d) ps gs then equal_outcome else not_equal_outcome)
  unfolding compare_result_sets compare_result_sets_inner reconcile_columns compare_unordered
      same_rows
  multiset_verdict predicted gold t ne by_pos un multi same p g h = ground arith

  -- Complete result sets, matched by position and compared as multisets, with some row, as many
  -- columns and rows that can be made canonical and hashed: where `==` is an equivalence on their
  -- canonical rows, they are EQUAL exactly when each of these rows occurs as often in one as in the
  -- other.
  pub compare_result_sets_multiset :
      (predicted gold : ResultSet d) {ps gs : List (CanonicalRow d)} {m n : ℕ}
      → IsEqualityOn (canonical_row_eq d) (λ r. In r (ps ++ gs))
      → (predicted.truncated || gold.truncated) ≡ false
      → (is_empty d predicted.rows && is_empty d gold.rows) ≡ false
      → config.column_match_mode ≡ ColumnMatchMode.by_position
      → config.row_order ≡ RowOrder.unordered
      → config.duplicate_row_mode ≡ DuplicateRowMode.multiset
      → length predicted.columns ≡ length gold.columns
      → canonicalize_rows d config predicted.rows 0 ≡ ok (ps, m)
      → canonicalize_rows d config gold.rows m ≡ ok (gs, n)
      → all_hashable d (ps ++ gs) ≡ true
      → (compare_result_sets d predicted gold config ≡ equal_outcome) ↔ (
          (r : CanonicalRow d)
          → In r (ps ++ gs)
          → count_if (canonical_row_eq d r) ps ≡ count_if (canonical_row_eq d r) gs)
  unfolding compare_result_sets
  compare_result_sets_multiset predicted gold {ps} {gs} law t ne by_pos un multi same p g hashed =
      let k = multiset_verdict predicted gold t ne by_pos un multi same p g hashed in
      let lem =
        same_multiset_lem (canonical_row_eq d) (λ r. In r (ps ++ gs)) law ps gs (All-In_left ps gs)
          (All-In_right ps gs) in
      (λ h. lem.0 (ground arith), λ h. ground (arith, lem.1 h))
