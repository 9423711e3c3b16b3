-- ===== src/Prelude/Grouping.antt =====
-- Grouping by a text key: the keys of a Python set comprehension, and sums over the groups.
use Prim.Native.Nat.{ℕ, ◌+◌}
use Prim.Native.String.{String}
use mathlib.Core.Path.{◌≡◌, refl, ◌∙◌}
use mathlib.Core.Logic.{inl, inr}
use mathlib.Core.Bool.{Bool, true, false, ◌&&◌}
use mathlib.Core.List.{List, [], ◌∷◌, map}
use native.Mathlib.Omega.{arith}
use model_hub.Prelude.Tests.{if◌then◌else◌, str_eq, str_eq_iff, str_eq_refl, Bool-cases}
use model_hub.Prelude.Lists.{All, All-mono}
use model_hub.Prelude.Counting.{count_if, any_if}

-- The members of `set(xs)`, whose order carries no meaning.
unfoldable pub distinct : List String → List String
distinct [] = []
distinct (x ∷ xs) = let rest = distinct xs in if any_if (str_eq x) xs then rest else x ∷ rest

module _ {ℓ} {A : Type ℓ} where
  -- `sum(f(x) for x in xs)`
  abbrev pub sum_of : (A → ℕ) → List A → ℕ
  sum_of f [] = 0
  sum_of f (x ∷ xs) = f x + sum_of f xs

  pub sum_of-add :
      (f g : A → ℕ) (xs : List A) → sum_of (λ x. f x + g x) xs ≡ sum_of f xs + sum_of g xs
  sum_of-add f g [] = refl
  sum_of-add f g (x ∷ xs) = omega (arith, sum_of-add f g xs)

  pub sum_of-zero : (xs : List A) → sum_of (λ x. 0) xs ≡ 0
  sum_of-zero [] = refl
  sum_of-zero (x ∷ xs) = omega (arith, sum_of-zero xs)

-- Each member stands once among the distinct ones.
pub count-distinct :
    (x : String) (xs : List String)
    → count_if (str_eq x) (distinct xs) ≡ (if any_if (str_eq x) xs then 1 else 0)
unfolding distinct
count-distinct x [] = refl
count-distinct x (y ∷ ys) = elim (Bool-cases (str_eq x y)) [
  | inl e ↦ let same : x ≡ y = (str_eq_iff x y).0 e in ground (arith, count-distinct x ys)
  | inr e ↦ ground (arith, count-distinct x ys)
]

module _ {ℓ} {A : Type ℓ} (key : A → String) where
  -- The elements of a group that pass a test.
  abbrev pub in_group : (A → Bool) → String → A → Bool
  in_group p k a = p a && str_eq (key a) k

  sum-member :
      (b : Bool) (x : String) (ks : List String)
      → count_if (str_eq x) ks ≡ 1
      → sum_of (λ k. if b && str_eq x k then 1 else 0) ks ≡ (if b then 1 else 0)
  sum-member true x [] h = absurd (omega arith)
  sum-member true x (k ∷ ks) h = tail x (k ∷ ks) ∙ h
    where
      tail :
          (x : String) (ks : List String)
          → sum_of (λ k. if true && str_eq x k then 1 else 0) ks ≡ count_if (str_eq x) ks
      tail x [] = refl
      tail x (k ∷ ks) = ground (arith, tail x ks)
  sum-member false x ks h = sum_of-zero ks

  pub sum-groups :
      (p : A → Bool) (ks : List String) (l : List A)
      → All (λ a. count_if (str_eq (key a)) ks ≡ 1) l
      → sum_of (λ k. count_if (in_group p k) l) ks ≡ count_if p l
  sum-groups p ks [] h = sum_of-zero ks
  sum-groups p ks (a ∷ l) h =
      sum_of-add (λ k. if in_group p k a then 1 else 0) (λ k. count_if (in_group p k) l) ks
      ∙ omega (arith, sum-member (p a) (key a) ks h.0, sum-groups p ks l h.1)

  -- Every element's key is among the keys.
  any-key : (l : List A) → All (λ a. any_if (str_eq (key a)) (map key l) ≡ true) l
  any-key [] = tt
  any-key (a ∷ l) = (
    rw (str_eq_refl (key a)) refl,
    All-mono (λ b. any_if (str_eq (key b)) (map key l) ≡ true)
        (λ b. any_if (str_eq (key b)) (map key (a ∷ l)) ≡ true) (λ b h. ground arith) l (any-key l),
  )

  -- The groups of all distinct keys together hold each element once.
  pub sum-groups_distinct :
      (p : A → Bool) (l : List A)
      → sum_of (λ k. count_if (in_group p k) l) (distinct (map key l)) ≡ count_if p l
  sum-groups_distinct p l = sum-groups p (distinct (map key l)) l (
      All-mono (λ a. any_if (str_eq (key a)) (map key l) ≡ true)
        (λ a. count_if (str_eq (key a)) (distinct (map key l)) ≡ 1)
        (λ a h. rw (count-distinct (key a) (map key l), h) refl) l (any-key l))
