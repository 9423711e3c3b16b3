-- ===== src/Prelude/Counting.antt =====
-- `sum(1 for x in xs if p(x))` and `[x for x in xs if p(x)]` for a Boolean test.
use Prim.Native.Nat.{ℕ, ◌+◌, ◌≤◌, ◌<◌}
use mathlib.Core.Path.{◌≡◌, refl}
use mathlib.Core.Logic.{◌↔◌}
use mathlib.Core.Bool.{Bool, true, false, ◌||◌}
use mathlib.Core.List.{List, [], ◌∷◌, ◌++◌}
use native.Mathlib.Omega.{arith}
use model_hub.Prelude.Tests.{if◌then◌else◌}
use model_hub.Prelude.Lists.{length}

module _ {ℓ} {A : Type ℓ} where
  abbrev pub count_if : (A → Bool) → List A → ℕ
  count_if p [] = 0
  count_if p (x ∷ xs) = (if p x then 1 else 0) + count_if p xs

  abbrev pub filter_if : (A → Bool) → List A → List A
  filter_if p [] = []
  filter_if p (x ∷ xs) = if p x then x ∷ filter_if p xs else filter_if p xs

  -- `any(p(x) for x in xs)`
  abbrev pub any_if : (A → Bool) → List A → Bool
  any_if p [] = false
  any_if p (x ∷ xs) = p x || any_if p xs

  pub length-filter_if : (p : A → Bool) (xs : List A) → length (filter_if p xs) ≡ count_if p xs
  length-filter_if p [] = refl
  length-filter_if p (x ∷ xs) = ground (arith, length-filter_if p xs)

  pub count_if-le : (p : A → Bool) (xs : List A) → count_if p xs ≤ length xs
  count_if-le p [] = omega arith
  count_if-le p (x ∷ xs) = ground (arith, count_if-le p xs)

  -- A stronger test counts no more.
  pub count_if_mono :
      (p q : A → Bool)
      → ((x : A) → p x ≡ true → q x ≡ true)
      → (xs : List A) → count_if p xs ≤ count_if q xs
  count_if_mono p q h [] = omega arith
  count_if_mono p q h (x ∷ xs) = ground (arith, h x, count_if_mono p q h xs)

  pub any_if-count_if : (p : A → Bool) (xs : List A) → (any_if p xs ≡ true) ↔ (0 < count_if p xs)
  any_if-count_if p [] = (λ h. cc, λ h. elim h [ ])
  any_if-count_if p (x ∷ xs) =
      let ih = any_if-count_if p xs in (λ h. ground (arith, ih.0), λ h. ground (arith, ih.1))

  pub any_if-append :
      (p : A → Bool) (xs ys : List A) → any_if p (xs ++ ys) ≡ (any_if p xs || any_if p ys)
  any_if-append p [] ys = refl
  any_if-append p (x ∷ xs) ys = ground (arith, any_if-append p xs ys)
