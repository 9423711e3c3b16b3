-- ===== src/Compare/Comparator/Multiset.antt =====
-- Equality of `Counter`s and of `set`s, for any test of equality, and what it means.
use model_hub.Prelude.{
  ◌+◌, ◌≡◌, refl, sym, ◌∙◌, ◌↔◌, inl, inr, All, Bool, true, false, ◌&&◌, Option, none, some, List,
  [], ◌∷◌, arith, Bool-cases, Option-cases, if◌then◌else◌,
}
use mathlib.Core.Path.{subst}
use model_hub.Prelude.Counting.{any_if, count_if}

module _ {A : Type 0} (eq : A → A → Bool) where
  -- The list without its first element that equals `a`.
  abbrev pub remove_first : A → List A → Option (List A)
  remove_first a [] = none
  remove_first a (b ∷ bs) =
      if eq a b then some bs else elim (remove_first a bs) [ none ↦ none | some cs ↦ some (b ∷ cs) ]

  -- `Counter(xs) == Counter(ys)`: the elements are matched one by one.
  unfoldable pub same_multiset : List A → List A → Bool
  same_multiset [] [] = true
  same_multiset [] (y ∷ ys) = false
  same_multiset (x ∷ xs) ys = elim (remove_first x ys) [
    | none ↦ false
    | some zs ↦ same_multiset xs zs
  ]

  abbrev all_in : List A → List A → Bool
  all_in [] ys = true
  all_in (x ∷ xs) ys = any_if (eq x) ys && all_in xs ys

  -- `set(xs) == set(ys)`
  unfoldable pub same_set : List A → List A → Bool
  same_set xs ys = all_in xs ys && all_in ys xs

  -- On the elements with the property, `==` is an equivalence.
  pub record IsEqualityOn (P : A → Type 0) : Type 0 where
    pub reflexive : (a : A) → P a → eq a a ≡ true
    pub symmetric : (a b : A) → P a → P b → eq a b ≡ true → eq b a ≡ true
    pub transitive : (a b c : A) → P a → P b → P c → eq a b ≡ true → eq b c ≡ true → eq a c ≡ true

  module _ (P : A → Type 0) (law : IsEqualityOn P) where
    -- Equal elements are told apart from others alike.
    eq-same : (a b c : A) → P a → P b → P c → eq a b ≡ true → eq c a ≡ eq c b
    eq-same a b c p q r h =
        let there = law.transitive c a b r p q in
        let back = law.transitive c b a r q p in
        let turned = law.symmetric a b p q h in
        elim (Bool-cases (eq c a)) [
          | inl k ↦ k ∙ sym (there k h)
          | inr k ↦ elim (Bool-cases (eq c b)) [
            | inl l ↦ absurd (ground (arith, back l turned))
            | inr l ↦ k ∙ sym l
          ]
        ]

    All-removed : (a : A) (ys zs : List A) → remove_first a ys ≡ some zs → All P ys → All P zs
    All-removed a [] zs h all = cc
    All-removed a (y ∷ ys) zs h all = elim (Bool-cases (eq a y)) [
      | inl e ↦ let same : ys ≡ zs = ground arith in subst (All P) same all.1
      | inr e ↦ elim (Option-cases (remove_first a ys)) [
        | inl q ↦ absurd (ground arith)
        | inr (ws, q) ↦
            let same : y ∷ ws ≡ zs = ground arith in
            subst (All P) same (all.0, All-removed a ys ws q all.1)
      ]
    ]

    removed-count :
        (a : A) (ys zs : List A) (c : A)
        → P a
        → All P ys
        → P c
        → remove_first a ys ≡ some zs
        → count_if (eq c) ys ≡ (if eq c a then 1 else 0) + count_if (eq c) zs
    removed-count a [] zs c p all r h = cc
    removed-count a (y ∷ ys) zs c p all r h = elim (Bool-cases (eq a y)) [
      | inl e ↦ ground (arith, eq-same a y c p all.0 r e)
      | inr e ↦ elim (Option-cases (remove_first a ys)) [
        | inl q ↦ absurd (ground arith)
        | inr (ws, q) ↦ ground (arith, removed-count a ys ws c p all.1 r q)
      ]
    ]

    not_removed-count : (a : A) (ys : List A) → remove_first a ys ≡ none → count_if (eq a) ys ≡ 0
    not_removed-count a [] h = refl
    not_removed-count a (y ∷ ys) h = ground (arith, not_removed-count a ys)

    same_counts :
        (xs ys : List A)
        → All P xs
        → All P ys
        → same_multiset xs ys ≡ true
        → (c : A) → P c
        → count_if (eq c) xs ≡ count_if (eq c) ys
    unfolding same_multiset
    same_counts [] [] ps qs h c r = refl
    same_counts [] (y ∷ ys) ps qs h c r = cc
    same_counts (x ∷ xs) ys ps qs h c r = elim (Option-cases (remove_first x ys)) [
      | inl q ↦ absurd (ground arith)
      | inr (zs, q) ↦ ground (
        arith,
        removed-count x ys zs c ps.0 qs r q,
        same_counts xs zs ps.1 (All-removed x ys zs q qs) (ground arith) c r,
      )
    ]

    counts_same :
        (xs ys : List A)
        → All P xs
        → All P ys
        → ((c : A) → P c → count_if (eq c) xs ≡ count_if (eq c) ys)
        → same_multiset xs ys ≡ true
    unfolding same_multiset
    counts_same [] [] ps qs h = refl
    counts_same [] (y ∷ ys) ps qs h = absurd (ground (arith, h y qs.0, law.reflexive y qs.0))
    counts_same (x ∷ xs) ys ps qs h = elim (Option-cases (remove_first x ys)) [
      | inl q ↦ absurd (ground (arith, h x ps.0, law.reflexive x ps.0, not_removed-count x ys q))
      | inr (zs, q) ↦ ground (
        arith,
        counts_same xs zs ps.1 (All-removed x ys zs q qs)
            (λ c r. ground (arith, h c r, removed-count x ys zs c ps.0 qs r q)),
      )
    ]

    -- Where the test is an equivalence on the elements of two lists, they are equal as multisets
    -- exactly when each such element occurs as often in one as in the other.
    pub same_multiset_lem :
        (xs ys : List A)
        → All P xs
        → All P ys
        → (same_multiset xs ys ≡ true) ↔ ((c : A) → P c → count_if (eq c) xs ≡ count_if (eq c) ys)
    same_multiset_lem xs ys ps qs = (same_counts xs ys ps qs, counts_same xs ys ps qs)

module _ {A : Type 0} (eq : A → A → Bool) (q : A → Bool)
    (kept : (a b : A) → eq a b ≡ true → q a ≡ true → q b ≡ true) where
  remove_first-any :
      (a : A) (ys zs : List A)
      → remove_first eq a ys ≡ some zs
      → any_if q ys ≡ false
      → (q a ≡ false) × (any_if q zs ≡ false)
  remove_first-any a [] zs h n = cc
  remove_first-any a (y ∷ ys) zs h n = elim (Bool-cases (eq a y)) [
    | inl e ↦ ground (arith, kept a y e)
    | inr e ↦ elim (Option-cases (remove_first eq a ys)) [
      | inl r ↦ absurd (ground arith)
      | inr (ws, r) ↦ ground (arith, remove_first-any a ys ws r)
    ]
  ]

  -- Lists of which one has an element with the property and the other has none.
  pub same_multiset-any :
      (xs ys : List A) → any_if q xs ≡ true → any_if q ys ≡ false → same_multiset eq xs ys ≡ false
  unfolding same_multiset
  same_multiset-any [] ys h n = cc
  same_multiset-any (x ∷ xs) ys h n = elim (Option-cases (remove_first eq x ys)) [
    | inl r ↦ ground arith
    | inr (zs, r) ↦ let k = remove_first-any x ys zs r n in ground (arith, same_multiset-any xs zs)
  ]

  any-kept : (a : A) (ys : List A) → q a ≡ true → any_if q ys ≡ false → any_if (eq a) ys ≡ false
  any-kept a [] h n = refl
  any-kept a (y ∷ ys) h n = ground (arith, kept a y, any-kept a ys)

  pub same_set-any :
      (xs ys : List A) → any_if q xs ≡ true → any_if q ys ≡ false → same_set eq xs ys ≡ false
  unfolding same_set
  same_set-any xs ys h n = ground (arith, missing xs ys h n)
    where
      missing :
          (xs ys : List A) → any_if q xs ≡ true → any_if q ys ≡ false → all_in eq xs ys ≡ false
      missing [] ys h n = cc
      missing (x ∷ xs) ys h n = ground (arith, any-kept x ys, missing xs ys)
