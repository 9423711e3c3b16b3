-- ===== src/Prelude/SortOn.antt =====
-- `sorted(xs, key=key)`: a stable sort, as insertion before the first element with a key as large.
use Prim.Native.Nat.{ℕ, ◌≤◌}
use mathlib.Core.Path.{◌≡◌, refl, ◌∙◌}
use mathlib.Core.Logic.{inl, inr}
use mathlib.Core.List.{List, [], ◌∷◌, map}
use native.Mathlib.Omega.{arith}
use model_hub.Prelude.Tests.{leb, ◌==◌, if◌then◌else◌, Bool-cases}
use model_hub.Prelude.Lists.{length, All}
use model_hub.Prelude.Counting.{filter_if}
use model_hub.Prelude.Sorting.{IsAscending, LowerBound}

module _ {ℓ} {A : Type ℓ} (key : A → ℕ) where
  insert_on : A → List A → List A
  insert_on a [] = a ∷ []
  insert_on a (x ∷ xs) = if leb (key a) (key x) then a ∷ (x ∷ xs) else x ∷ insert_on a xs

  unfoldable pub sort_on : List A → List A
  unfolding insert_on
  sort_on [] = []
  sort_on (x ∷ xs) = insert_on x (sort_on xs)

  LowerBound-insert_on :
      (b : ℕ) (a : A) (xs : List A)
      → b ≤ key a
      → LowerBound b (map key xs)
      → LowerBound b (map key (insert_on a xs))
  unfolding insert_on
  LowerBound-insert_on b a [] h k = (h, tt)
  LowerBound-insert_on b a (x ∷ xs) h k = ground (arith, LowerBound-insert_on b a xs h k.1)

  LowerBound-weaken :
      (a b : ℕ) (xs : List A) → a ≤ b → LowerBound b (map key xs) → LowerBound a (map key xs)
  LowerBound-weaken a b [] h k = tt
  LowerBound-weaken a b (x ∷ xs) h k = (omega arith, LowerBound-weaken a b xs h k.1)

  insert_on-IsAscending :
      (a : A) (xs : List A) → IsAscending (map key xs) → IsAscending (map key (insert_on a xs))
  unfolding insert_on
  insert_on-IsAscending a [] h = (tt, tt)
  insert_on-IsAscending a (x ∷ xs) h = ground (
    arith,
    insert_on-IsAscending a xs h.1,
    LowerBound-insert_on (key x) a xs,
    LowerBound-weaken (key a) (key x) xs,
  )

  pub sort_on-IsAscending : (xs : List A) → IsAscending (map key (sort_on xs))
  unfolding sort_on
  sort_on-IsAscending [] = tt
  sort_on-IsAscending (x ∷ xs) = insert_on-IsAscending x (sort_on xs) (sort_on-IsAscending xs)

  filter_if-insert_on :
      (k : ℕ) (a : A) (xs : List A)
      → filter_if (λ x. key x == k) (insert_on a xs) ≡ filter_if (λ x. key x == k) (a ∷ xs)
  unfolding insert_on
  filter_if-insert_on k a [] = refl
  filter_if-insert_on k a (x ∷ xs) = ground (arith, filter_if-insert_on k a xs)

  -- The elements of each key stay in their order.
  pub filter_if-sort_on :
      (k : ℕ) (xs : List A)
      → filter_if (λ x. key x == k) (sort_on xs) ≡ filter_if (λ x. key x == k) xs
  unfolding sort_on
  filter_if-sort_on k [] = refl
  filter_if-sort_on k (x ∷ xs) =
      filter_if-insert_on k x (sort_on xs) ∙ ground (arith, filter_if-sort_on k xs)

  length-insert_on : (a : A) (xs : List A) → length (insert_on a xs) ≡ length (a ∷ xs)
  unfolding insert_on
  length-insert_on a [] = refl
  length-insert_on a (x ∷ xs) = ground (arith, length-insert_on a xs)

  pub length-sort_on : (xs : List A) → length (sort_on xs) ≡ length xs
  unfolding sort_on
  length-sort_on [] = refl
  length-sort_on (x ∷ xs) = ground (arith, length-insert_on x (sort_on xs), length-sort_on xs)

module _ {ℓ κ} {A : Type ℓ} (key : A → ℕ) (P : A → Type κ) where
  All-insert_on : (a : A) (xs : List A) → P a → All P xs → All P (insert_on key a xs)
  unfolding insert_on
  All-insert_on a [] p h = (p, tt)
  All-insert_on a (x ∷ xs) p h = elim (Bool-cases (leb (key a) (key x))) [
    | inl e ↦ rw e (p, h)
    | inr e ↦ rw e (h.0, All-insert_on a xs p h.1)
  ]

  pub All-sort_on : (xs : List A) → All P xs → All P (sort_on key xs)
  unfolding sort_on
  All-sort_on [] h = tt
  All-sort_on (x ∷ xs) h = All-insert_on x (sort_on key xs) h.0 (All-sort_on xs h.1)
