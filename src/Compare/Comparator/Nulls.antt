-- ===== src/Compare/Comparator/Nulls.antt =====
-- Where NULL equals nothing, a result set with a NULL equals none.
use model_hub.Prelude.{
  ℕ, ◌≤◌, ◌≡◌, ◌≢◌, refl, inl, inr, Bool, true, false, List, [], ◌∷◌, ok, arith, Result-cases,
  length, ltb,
}
use model_hub.Prelude.Counting.{any_if}
use model_hub.Compare.Types.{equal_outcome}
use model_hub.Compare.Values.{
  Doubles, ColumnMatchMode, ComparatorConfig, Value, null, values_equal, Canonical, fresh,
  canonical_eq, canonicalize_value, canonicalize_nonnull, canonicalize_coerced, canonicalize_strict,
}
use model_hub.Compare.Comparator.{
  Row, ResultSet, reconcile_columns, rows_equal, compare_rows, compare_ordered, CanonicalRow,
  canonicalize_row, canonicalize_rows, canonical_row_eq, same_rows, compare_unordered, is_empty,
  compare_result_sets_inner, compare_result_sets,
}
use model_hub.Compare.Comparator.Multiset.{same_multiset-any, same_set-any}

module _ (d : Doubles) (config : ComparatorConfig d) where
  abbrev pub is_null : Value d → Bool
  is_null null = true
  is_null _ = false

  abbrev pub has_null : List (Row d) → Bool
  has_null rows = any_if (any_if is_null) rows

  -- An `object()` made before the number `n`.
  abbrev fresh_below : ℕ → Canonical d → Bool
  fresh_below n (fresh k) = ltb k n
  fresh_below n _ = false

  abbrev row_below : ℕ → CanonicalRow d → Bool
  row_below n row = any_if (fresh_below n) row

  fresh_below-kept :
      (n : ℕ) (a b : Canonical d)
      → canonical_eq d a b ≡ true
      → fresh_below n a ≡ true
      → fresh_below n b ≡ true
  fresh_below-kept n (fresh k) (fresh j) e h = ground arith
  fresh_below-kept n (fresh k) b e h = ground arith
  fresh_below-kept n a b e h = ground arith

  row_below-kept :
      (n : ℕ) (a b : CanonicalRow d)
      → canonical_row_eq d a b ≡ true
      → row_below n a ≡ true
      → row_below n b ≡ true
  row_below-kept n [] b e h = cc
  row_below-kept n (a ∷ ts) [] e h = cc
  row_below-kept n (a ∷ ts) (b ∷ us) e h =
      ground (arith, fresh_below-kept n a b, row_below-kept n ts us)

  fresh_below-later :
      (m n : ℕ) (c : Canonical d) → m ≤ n → fresh_below m c ≡ true → fresh_below n c ≡ true
  fresh_below-later m n c h e = ground arith

  row_below-later :
      (m n : ℕ) (r : CanonicalRow d) → m ≤ n → row_below m r ≡ true → row_below n r ≡ true
  row_below-later m n [] h e = cc
  row_below-later m n (c ∷ r) h e = ground (arith, fresh_below-later m n c, row_below-later m n r)

  never_fresh :
      (n : ℕ) (v : Value d) (c : Canonical d)
      → canonicalize_nonnull d config v ≡ ok c
      → fresh_below n c ≡ false
  unfolding canonicalize_nonnull canonicalize_coerced canonicalize_strict
  never_fresh n v c e = ground arith

  -- What making a value canonical does: objects are numbered from `n` on, and a NULL makes one.
  value_made :
      config.null_equals_null ≡ false
      → (v : Value d) (n n' : ℕ) (c : Canonical d) → canonicalize_value d config v n ≡ ok (c, n')
      → (n ≤ n') × (fresh_below n c ≡ false) × (is_null v ≡ true → fresh_below n' c ≡ true)
  unfolding canonicalize_value
  value_made h null n n' c e = ground arith
  value_made h v n n' c e = elim (Result-cases (canonicalize_nonnull d config v)) [
    | inl (k, q) ↦ ground (arith, never_fresh n v k q)
    | inr (x, q) ↦ absurd (ground arith)
  ]

  row_made :
      config.null_equals_null ≡ false
      → (r : Row d) (n n' : ℕ) (cs : CanonicalRow d) → canonicalize_row d config r n ≡ ok (cs, n')
      → (n ≤ n') × (row_below n cs ≡ false) × (any_if is_null r ≡ true → row_below n' cs ≡ true)
  unfolding canonicalize_row
  row_made h [] n n' cs e = ground arith
  row_made h (v ∷ r) n n' cs e = elim (Result-cases (canonicalize_value d config v n)) [
    | inr (x, q) ↦ absurd (ground arith)
    | inl ((c, k), q) ↦ elim (Result-cases (canonicalize_row d config r k)) [
      | inr (x, t) ↦ absurd (ground arith)
      | inl ((rest, j), t) ↦
          let one = value_made h v n k c q in
          let more = row_made h r k j rest t in
          let parts = rw (t, canonicalize_row) at (rw (q, canonicalize_row) at e) in
          ground (arith, row_below-later n k rest one.0, fresh_below-later k j c more.0)
    ]
  ]

  rows_below-later :
      (m n : ℕ) (rs : List (CanonicalRow d))
      → m ≤ n
      → any_if (row_below m) rs ≡ true
      → any_if (row_below n) rs ≡ true
  rows_below-later m n [] h e = cc
  rows_below-later m n (r ∷ rs) h e = ground (arith, row_below-later m n r, rows_below-later m n rs)

  rows_made :
      config.null_equals_null ≡ false
      → (rs : List (Row d)) (n n' : ℕ) (cs : List (CanonicalRow d))
      → canonicalize_rows d config rs n ≡ ok (cs, n')
      → (n ≤ n')
        × (any_if (row_below n) cs ≡ false)
        × (has_null rs ≡ true → any_if (row_below n') cs ≡ true)
  unfolding canonicalize_rows
  rows_made h [] n n' cs e = ground arith
  rows_made h (r ∷ rs) n n' cs e = elim (Result-cases (canonicalize_row d config r n)) [
    | inr (x, q) ↦ absurd (ground arith)
    | inl ((c, k), q) ↦ elim (Result-cases (canonicalize_rows d config rs k)) [
      | inr (x, t) ↦ absurd (ground arith)
      | inl ((rest, j), t) ↦
          let one = row_made h r n k c q in
          let more = rows_made h rs k j rest t in
          let parts = rw (t, canonicalize_rows) at (rw (q, canonicalize_rows) at e) in
          ground (arith, rows_below-later n k rest one.0, row_below-later k j c more.0)
    ]
  ]

  unordered_not_equal :
      config.null_equals_null ≡ false
      → (ps gs : List (Row d)) → has_null ps ≡ true
      → compare_unordered d config ps gs ≢ ok equal_outcome
  unfolding compare_unordered same_rows
  unordered_not_equal h ps gs e f = elim (Result-cases (canonicalize_rows d config ps 0)) [
    | inr (x, q) ↦ ground arith
    | inl ((cs, m), q) ↦ elim (Result-cases (canonicalize_rows d config gs m)) [
      | inr (x, t) ↦ ground arith
      | inl ((cs', n), t) ↦
          let one = rows_made h ps 0 m cs q in
          let two = rows_made h gs m n cs' t in
          let bag =
            same_multiset-any (canonical_row_eq d) (row_below m) (row_below-kept m) cs cs' (one.2 e)
              two.1 in
          let flat =
            same_set-any (canonical_row_eq d) (row_below m) (row_below-kept m) cs cs' (one.2 e)
              two.1 in
          ground arith
    ]
  ]

  null_not_equal :
      config.null_equals_null ≡ false
      → (a b : Value d) → is_null a ≡ true
      → values_equal d config a b ≡ ok false
  unfolding values_equal
  null_not_equal h null b e = ground arith
  null_not_equal h a b e = ground arith

  row_not_equal :
      config.null_equals_null ≡ false
      → (p g : Row d) → any_if is_null p ≡ true
      → rows_equal d config p g ≢ ok true
  unfolding rows_equal
  row_not_equal h [] g e f = cc
  row_not_equal h (a ∷ ts) [] e f = cc
  row_not_equal h (a ∷ ts) (b ∷ us) e f = elim (Result-cases (values_equal d config a b)) [
    | inr (x, q) ↦ ground arith
    | inl (t, q) ↦ ground (arith, null_not_equal h a b, row_not_equal h ts us)
  ]

  rows_not_equal :
      config.null_equals_null ≡ false
      → (ps gs : List (Row d)) → length ps ≡ length gs
      → has_null ps ≡ true
      → compare_rows d config ps gs ≢ ok equal_outcome
  unfolding compare_rows
  rows_not_equal h [] gs s e f = cc
  rows_not_equal h (p ∷ ps) [] s e f = absurd (ground arith)
  rows_not_equal h (p ∷ ps) (g ∷ gs) s e f = elim (Result-cases (rows_equal d config p g)) [
    | inr (x, q) ↦ ground arith
    | inl (t, q) ↦ ground (arith, row_not_equal h p g, rows_not_equal h ps gs)
  ]

  ordered_not_equal :
      config.null_equals_null ≡ false
      → (ps gs : List (Row d)) → has_null ps ≡ true
      → compare_ordered d config ps gs ≢ ok equal_outcome
  unfolding compare_ordered
  ordered_not_equal h ps gs e f = ground (arith, rows_not_equal h ps gs)

  null-not_empty : (rows : List (Row d)) → has_null rows ≡ true → is_empty d rows ≡ false
  null-not_empty [] h = cc
  null-not_empty (r ∷ rs) h = refl

  -- Where `null_equals_null` is false and columns match by position, a predicted result set with a
  -- NULL is never EQUAL to any gold result set, itself included, whatever the other settings.
  pub compare_result_sets_null :
      (predicted gold : ResultSet d)
      → config.null_equals_null ≡ false
      → config.column_match_mode ≡ ColumnMatchMode.by_position
      → has_null predicted.rows ≡ true
      → compare_result_sets d predicted gold config ≢ equal_outcome
  unfolding compare_result_sets compare_result_sets_inner reconcile_columns compare_ordered
  compare_result_sets_null predicted gold h m e f = ground (
    arith,
    null-not_empty predicted.rows e,
    unordered_not_equal h predicted.rows gold.rows e,
    ordered_not_equal h predicted.rows gold.rows e,
  )
