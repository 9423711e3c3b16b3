-- ===== src/Compare/Comparator.antt =====
-- compare/comparator.py: two result sets compared. The texts and examples that explain an outcome
-- are left out.
pub mod Multiset
pub mod Verdict
pub mod Nulls
use model_hub.Prelude.{
  ℕ, ◌+◌, Bool, true, false, not, ◌&&◌, ◌||◌, Option, none, some, List, [], ◌∷◌, ◌++◌, map, String,
  Result, ok, err, ◌>>=◌, ◌==◌, if◌then◌else◌, str_eq, length, get_elem?,
}
use model_hub.Prelude.Counting.{any_if}
use model_hub.Common.Errors.{Exception, other_error}
use model_hub.Compare.Types.{
  ComparisonOutcome, equal_outcome, not_equal_outcome, undecidable_outcome, too_large,
  internal_error,
}
use model_hub.Compare.Values.{
  Doubles, ColumnMatchMode, RowOrder, DuplicateRowMode, ComparatorConfig, Value, values_equal,
  Canonical, plain_other, tagged_other, canonicalize_value, canonical_eq,
}
use model_hub.Compare.Comparator.Multiset.{same_multiset, same_set}

-- The names are the same, as sets.
abbrev pub same_names : List String → List String → Bool
same_names = same_set str_eq

-- `{name: i for i, name in enumerate(columns)}[name]`: the last place of the name.
pub index_of : String → List String → Option ℕ
index_of name [] = none
index_of name (c ∷ cs) = elim (index_of name cs) [
  | some i ↦ some (i + 1)
  | none ↦ if str_eq c name then some 0 else none
]

module _ (d : Doubles) where
  abbrev pub Row : Type 0
  Row = List (Value d)

  pub record ResultSet : Type 0 where
    pub columns : List String
    pub rows : List Row
    pub truncated : Bool
    pub row_limit : ℕ
    pub rows_scanned : Option ℕ

  -- `row[index_of[name]]`, with its KeyError and its IndexError
  cell : List String → Row → String → Result Exception (Value d)
  unfolding index_of
  cell columns row name = elim (index_of name columns) [
    | none ↦ err other_error
    | some i ↦ elim (get_elem? row i) [ none ↦ err other_error | some v ↦ ok v ]
  ]

  reorder_row : List String → List String → Row → Result Exception Row
  unfolding cell
  reorder_row columns [] row = ok []
  reorder_row columns (name ∷ names) row =
      cell columns row name >>= λ v. (reorder_row columns names row >>= λ vs. ok (v ∷ vs))

  unfoldable pub reorder_by_name :
      List String → List String → List Row → Result Exception (List Row)
  unfolding reorder_row
  reorder_by_name columns column_order [] = ok []
  reorder_by_name columns column_order (row ∷ rows) = reorder_row columns column_order row >>= λ r.
      (reorder_by_name columns column_order rows >>= λ rs. ok (r ∷ rs))

  -- The rows to compare, or none where the columns cannot be matched.
  unfoldable pub reconcile_columns :
      ResultSet → ResultSet → ComparatorConfig d → Result Exception (Option (List Row × List Row))
  reconcile_columns predicted gold config = elim config.column_match_mode [
    | ColumnMatchMode.by_position ↦
        if not (length predicted.columns == length gold.columns)
        then ok none
        else ok (some (predicted.rows, gold.rows))
    | ColumnMatchMode.by_name ↦
        if not (same_names predicted.columns gold.columns)
        then ok none
        else reorder_by_name predicted.columns gold.columns predicted.rows >>= λ p.
            (reorder_by_name gold.columns gold.columns gold.rows >>= λ g. ok (some (p, g)))
  ]

  -- `all(_values_equal(p, g) for p, g in zip(p_row, g_row))`, which stops at the first difference;
  -- rows of different lengths differ.
  unfoldable pub rows_equal : ComparatorConfig d → Row → Row → Result Exception Bool
  rows_equal config [] [] = ok true
  rows_equal config (a ∷ us) (b ∷ vs) = values_equal d config a b >>= λ e. elim e [
    | true ↦ rows_equal config us vs
    | false ↦ ok false
  ]
  rows_equal config _ _ = ok false

  unfoldable pub compare_rows :
      ComparatorConfig d → List Row → List Row → Result Exception ComparisonOutcome
  unfolding rows_equal
  compare_rows config (p ∷ ps) (g ∷ gs) =
      if not (length p == length g)
      then ok not_equal_outcome
      else rows_equal config p g >>= λ e. elim e [
        | true ↦ compare_rows config ps gs
        | false ↦ ok not_equal_outcome
      ]
  compare_rows config _ _ = ok equal_outcome

  unfoldable pub compare_ordered :
      ComparatorConfig d → List Row → List Row → Result Exception ComparisonOutcome
  unfolding compare_rows
  compare_ordered config predicted_rows gold_rows =
      if not (length predicted_rows == length gold_rows)
      then ok not_equal_outcome
      else compare_rows config predicted_rows gold_rows

  abbrev pub CanonicalRow : Type 0
  CanonicalRow = List (Canonical d)

  canonicalize_row : ComparatorConfig d → Row → ℕ → Result Exception (CanonicalRow × ℕ)
  canonicalize_row config [] n = ok ([], n)
  canonicalize_row config (v ∷ vs) n = canonicalize_value d config v n >>= λ c.
      (canonicalize_row config vs c.1 >>= λ cs. ok (c.0 ∷ cs.0, cs.1))

  unfoldable pub canonicalize_rows :
      ComparatorConfig d → List Row → ℕ → Result Exception (List CanonicalRow × ℕ)
  unfolding canonicalize_row
  canonicalize_rows config [] n = ok ([], n)
  canonicalize_rows config (r ∷ rs) n = canonicalize_row config r n >>= λ c.
      (canonicalize_rows config rs c.1 >>= λ cs. ok (c.0 ∷ cs.0, cs.1))

  abbrev pub canonical_row_eq : CanonicalRow → CanonicalRow → Bool
  canonical_row_eq [] [] = true
  canonical_row_eq (a ∷ us) (b ∷ vs) = canonical_eq d a b && canonical_row_eq us vs
  canonical_row_eq _ _ = false

  -- Numbers, texts and `object()`s can be hashed.
  abbrev pub is_hashable_value : Canonical d → Bool
  is_hashable_value (plain_other o) = d.is_hashable o
  is_hashable_value (tagged_other o) = d.is_hashable o
  is_hashable_value _ = true

  abbrev pub is_hashable_row : CanonicalRow → Bool
  is_hashable_row [] = true
  is_hashable_row (v ∷ vs) = is_hashable_value v && is_hashable_row vs

  -- `set` and `Counter` hash every row of both sides.
  abbrev pub all_hashable : List CanonicalRow → Bool
  all_hashable [] = true
  all_hashable (r ∷ rs) = is_hashable_row r && all_hashable rs

  -- The rows are the same set, or the same multiset.
  unfoldable pub same_rows : DuplicateRowMode → List CanonicalRow → List CanonicalRow → Bool
  same_rows DuplicateRowMode.set ps gs = same_set canonical_row_eq ps gs
  same_rows DuplicateRowMode.multiset ps gs = same_multiset canonical_row_eq ps gs

  unfoldable pub compare_unordered :
      ComparatorConfig d → List Row → List Row → Result Exception ComparisonOutcome
  compare_unordered config predicted_rows gold_rows =
      canonicalize_rows config predicted_rows 0 >>= λ p.
      (canonicalize_rows config gold_rows p.1 >>= λ g.
      if not (all_hashable (p.0 ++ g.0))
      then err other_error
      else ok (
          if same_rows config.duplicate_row_mode p.0 g.0 then equal_outcome else not_equal_outcome))

  abbrev pub is_empty : List Row → Bool
  is_empty [] = true
  is_empty (r ∷ rs) = false

  unfoldable pub compare_result_sets_inner :
      ResultSet → ResultSet → ComparatorConfig d → Result Exception ComparisonOutcome
  compare_result_sets_inner predicted gold config =
      if predicted.truncated || gold.truncated
      then ok (undecidable_outcome too_large)
      else if config.both_empty_is_equal && (is_empty predicted.rows && is_empty gold.rows)
      then ok equal_outcome
      else reconcile_columns predicted gold config >>= λ rows. elim rows [
        | none ↦ ok not_equal_outcome
        | some (p, g) ↦ elim config.row_order [
          | RowOrder.ordered ↦ compare_ordered config p g
          | RowOrder.unordered ↦ compare_unordered config p g
        ]
      ]

  -- `except Exception`
  abbrev pub decided : Result Exception ComparisonOutcome → ComparisonOutcome
  decided (ok outcome) = outcome
  decided (err e) = undecidable_outcome internal_error

  unfoldable pub compare_result_sets :
      ResultSet → ResultSet → ComparatorConfig d → ComparisonOutcome
  unfolding compare_result_sets_inner
  compare_result_sets predicted gold config =
      decided (compare_result_sets_inner predicted gold config)
