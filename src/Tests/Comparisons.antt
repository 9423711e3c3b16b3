-- ===== src/Tests/Comparisons.antt =====
-- The comparator, with whole numbers in place of doubles.
use model_hub.Prelude.{
  ℕ, ◌≡◌, ◌≢◌, refl, ap, ◌↔◌, true, false, ◌||◌, none, List, [], ◌∷◌, ◌++◌, In, ok, arith, ◌==◌,
  str_eq_iff, str_eq_refl,
}
use mathlib.Core.Path.{subst}
use model_hub.Prelude.Counting.{count_if}
use model_hub.Prelude.Int.{ℤ, pos, pos_part}
use model_hub.Compare.Types.{equal_outcome, undecidable_outcome, too_large}
use model_hub.Compare.Values.{
  Doubles, ColumnMatchMode, RowOrder, DuplicateRowMode, TypeMode, ComparatorConfig, Value, integer,
  null, Canonical, plain_text, tagged_text, tagged_int, canonical_eq, int_eq, canonicalize_value,
}
use model_hub.Compare.Comparator.{
  ResultSet, CanonicalRow, canonicalize_rows, canonical_row_eq, compare_result_sets,
}
use model_hub.Compare.Comparator.Nulls.{compare_result_sets_null}
use model_hub.Compare.Comparator.Multiset.{IsEqualityOn}
use model_hub.Compare.Comparator.Verdict.{
  compare_result_sets_too_large, compare_result_sets_both_empty, compare_result_sets_multiset,
}

abbrev pub whole_numbers : Doubles
whole_numbers = record {
  Float = ℕ;
  Other = ℕ;
  is_close = λ a b r t. ok (a == b);
  of_int = λ n. ok (pos_part n);
  of_text = λ s. none;
  is_positive = λ t. false;
  to_grid = λ v t. ok v;
  round_12 = λ v. v;
  float_eq = λ a b. a == b;
  other_eq = λ a b. a == b;
  same_type = λ a b. true;
  other_eq_float = λ a b. false;
  is_hashable = λ o. o == 0;
  json_keeps = λ o. o == 0;
}

int_eq_sound : (a b : ℤ) → int_eq a b ≡ true → a ≡ b
int_eq_sound a b h = ground arith

int_eq_refl : (a : ℤ) → int_eq a a ≡ true
int_eq_refl a = ground arith

canonical_eq_sound : (a b : Canonical whole_numbers) → canonical_eq whole_numbers a b ≡ true → a ≡ b
canonical_eq_sound (plain_text s) (plain_text t) h = ap plain_text ((str_eq_iff s t).0 h)
canonical_eq_sound (tagged_text s) (tagged_text t) h = ap tagged_text ((str_eq_iff s t).0 h)
canonical_eq_sound a b h = ground arith

canonical_eq_refl : (a : Canonical whole_numbers) → canonical_eq whole_numbers a a ≡ true
canonical_eq_refl (plain_text s) = str_eq_refl s
canonical_eq_refl (tagged_text s) = str_eq_refl s
canonical_eq_refl a = ground arith

row_eq_sound :
    (a b : CanonicalRow whole_numbers) → canonical_row_eq whole_numbers a b ≡ true → a ≡ b
row_eq_sound [] [] h = refl
row_eq_sound [] (b ∷ us) h = cc
row_eq_sound (a ∷ ts) [] h = cc
row_eq_sound (a ∷ ts) (b ∷ us) h =
    let e : a ≡ b = canonical_eq_sound a b (ground arith) in
    let es : ts ≡ us = row_eq_sound ts us (ground arith) in cc

row_eq_refl : (a : CanonicalRow whole_numbers) → canonical_row_eq whole_numbers a a ≡ true
row_eq_refl [] = refl
row_eq_refl (a ∷ ts) = ground (arith, canonical_eq_refl a, row_eq_refl ts)

row_eq-IsEqualityOn :
    (P : CanonicalRow whole_numbers → Type 0) → IsEqualityOn (canonical_row_eq whole_numbers) P
row_eq-IsEqualityOn P = record {
  reflexive = λ a p. row_eq_refl a;
  symmetric = λ a b p q h.
      subst (λ c. canonical_row_eq whole_numbers c a ≡ true) (row_eq_sound a b h) (row_eq_refl a);
  transitive = λ a b c p q r h k.
      subst (λ x. canonical_row_eq whole_numbers a x ≡ true) (row_eq_sound b c k) h;
}

abbrev pub by_default : ComparatorConfig whole_numbers
by_default = record {
  column_match_mode = ColumnMatchMode.by_position;
  row_order = RowOrder.unordered;
  null_equals_null = true;
  float_rel_tol = 0;
  float_abs_tol = 0;
  both_empty_is_equal = true;
  duplicate_row_mode = DuplicateRowMode.multiset;
  type_mode = TypeMode.strict;
}

abbrev result_of : List (List (Value whole_numbers)) → ResultSet whole_numbers
result_of rows = record {
  columns = "a" ∷ [];
  rows = rows;
  truncated = false;
  row_limit = 1000;
  rows_scanned = none;
}

abbrev pub one_two : ResultSet whole_numbers
one_two = result_of ((integer (pos 1) ∷ []) ∷ (integer (pos 2) ∷ []) ∷ [])

abbrev two_one : ResultSet whole_numbers
two_one = result_of ((integer (pos 2) ∷ []) ∷ (integer (pos 1) ∷ []) ∷ [])

abbrev canonical_one_two : List (CanonicalRow whole_numbers)
canonical_one_two = (tagged_int (pos 1) ∷ []) ∷ (tagged_int (pos 2) ∷ []) ∷ []

abbrev canonical_two_one : List (CanonicalRow whole_numbers)
canonical_two_one = (tagged_int (pos 2) ∷ []) ∷ (tagged_int (pos 1) ∷ []) ∷ []

compare_result_sets_multiset_example :
    (compare_result_sets whole_numbers one_two two_one by_default ≡ equal_outcome) ↔ (
      (r : CanonicalRow whole_numbers)
      → In r (canonical_one_two ++ canonical_two_one)
      → count_if (canonical_row_eq whole_numbers r) canonical_one_two
        ≡ count_if (canonical_row_eq whole_numbers r) canonical_two_one)
compare_result_sets_multiset_example =
    compare_result_sets_multiset whole_numbers by_default one_two two_one {ps = canonical_one_two}
      {gs = canonical_two_one} {m = 0} {n = 0} (row_eq-IsEqualityOn _) refl refl refl refl refl refl
      (unfold canonicalize_rows canonicalize_value in refl)
      (unfold canonicalize_rows canonicalize_value in refl) refl

compare_result_sets_too_large_example :
    (compare_result_sets whole_numbers (record one_two { truncated = true }) two_one by_default
      ≡ undecidable_outcome too_large)
    ↔ ((true || false) ≡ true)
compare_result_sets_too_large_example =
    compare_result_sets_too_large whole_numbers by_default (record one_two { truncated = true })
      two_one

abbrev empty_suspicious : ComparatorConfig whole_numbers
empty_suspicious = record by_default { both_empty_is_equal = false }

compare_result_sets_both_empty_example :
    compare_result_sets whole_numbers (result_of []) (result_of []) empty_suspicious ≡ equal_outcome
compare_result_sets_both_empty_example =
    compare_result_sets_both_empty whole_numbers empty_suspicious (result_of []) (result_of []) refl
      refl refl refl refl

abbrev nulls_differ : ComparatorConfig whole_numbers
nulls_differ = record by_default { null_equals_null = false }

abbrev with_null : ResultSet whole_numbers
with_null = result_of ((null ∷ []) ∷ (integer (pos 2) ∷ []) ∷ [])

compare_result_sets_null_example :
    compare_result_sets whole_numbers with_null with_null nulls_differ ≢ equal_outcome
compare_result_sets_null_example =
    compare_result_sets_null whole_numbers nulls_differ with_null with_null refl refl refl
