-- ===== src/Prelude/Sorting.antt =====
-- `sorted` on numbers, as insertion into an ascending list.
use Prim.Native.Nat.{ℕ, zero, suc, ◌+◌, ◌≤◌, ◌<◌}
use mathlib.Core.Path.{◌≡◌, refl}
use mathlib.Core.Bool.{Bool}
use mathlib.Core.List.{List, [], ◌∷◌}
use mathlib.Core.Option.{some}
use native.Mathlib.Omega.{arith}
use model_hub.Prelude.Tests.{leb, ltb, if◌then◌else◌}
use model_hub.Prelude.Lists.{length, get_elem?}
use model_hub.Prelude.Counting.{count_if, count_if-le}

pub insert_sorted : ℕ → List ℕ → List ℕ
insert_sorted a [] = a ∷ []
insert_sorted a (x ∷ xs) = if leb a x then a ∷ (x ∷ xs) else x ∷ insert_sorted a xs

unfoldable pub sorted : List ℕ → List ℕ
unfolding insert_sorted
sorted [] = []
sorted (x ∷ xs) = insert_sorted x (sorted xs)

abbrev pub LowerBound : ℕ → List ℕ → Type 0
LowerBound a [] = Unit
LowerBound a (x ∷ xs) = (a ≤ x) × LowerBound a xs

abbrev pub IsAscending : List ℕ → Type 0
IsAscending [] = Unit
IsAscending (x ∷ xs) = LowerBound x xs × IsAscending xs

LowerBound-trans : (a b : ℕ) (xs : List ℕ) → a ≤ b → LowerBound b xs → LowerBound a xs
LowerBound-trans a b [] h k = tt
LowerBound-trans a b (x ∷ xs) h k = (omega arith, LowerBound-trans a b xs h k.1)

LowerBound-insert_sorted :
    (a b : ℕ) (xs : List ℕ) → a ≤ b → LowerBound a xs → LowerBound a (insert_sorted b xs)
unfolding insert_sorted
LowerBound-insert_sorted a b [] h k = (h, tt)
LowerBound-insert_sorted a b (x ∷ xs) h k = ground (arith, LowerBound-insert_sorted a b xs h k.1)

insert_sorted-IsAscending :
    (a : ℕ) (xs : List ℕ) → IsAscending xs → IsAscending (insert_sorted a xs)
unfolding insert_sorted
insert_sorted-IsAscending a [] h = (tt, tt)
insert_sorted-IsAscending a (x ∷ xs) h = ground (
  arith,
  insert_sorted-IsAscending a xs h.1,
  LowerBound-insert_sorted x a xs,
  LowerBound-trans a x xs,
)

pub sorted-IsAscending : (xs : List ℕ) → IsAscending (sorted xs)
unfolding sorted
sorted-IsAscending [] = tt
sorted-IsAscending (x ∷ xs) = insert_sorted-IsAscending x (sorted xs) (sorted-IsAscending xs)

count_if-insert_sorted :
    (p : ℕ → Bool) (a : ℕ) (xs : List ℕ) → count_if p (insert_sorted a xs) ≡ count_if p (a ∷ xs)
unfolding insert_sorted
count_if-insert_sorted p a [] = refl
count_if-insert_sorted p a (x ∷ xs) = ground (arith, count_if-insert_sorted p a xs)

-- Sorting keeps how often any test passes.
pub count_if-sorted : (p : ℕ → Bool) (xs : List ℕ) → count_if p (sorted xs) ≡ count_if p xs
unfolding sorted
count_if-sorted p [] = refl
count_if-sorted p (x ∷ xs) =
    ground (arith, count_if-insert_sorted p x (sorted xs), count_if-sorted p xs)

length-insert_sorted : (a : ℕ) (xs : List ℕ) → length (insert_sorted a xs) ≡ suc (length xs)
unfolding insert_sorted
length-insert_sorted a [] = refl
length-insert_sorted a (x ∷ xs) = ground (arith, length-insert_sorted a xs)

pub length-sorted : (xs : List ℕ) → length (sorted xs) ≡ length xs
unfolding sorted
length-sorted [] = refl
length-sorted (x ∷ xs) = ground (arith, length-insert_sorted x (sorted xs), length-sorted xs)

LowerBound-count :
    (p q : ℕ) (xs : List ℕ) → p ≤ q → LowerBound q xs → count_if (λ x. ltb x p) xs ≡ 0
LowerBound-count p q [] h k = refl
LowerBound-count p q (x ∷ xs) h k = ground (arith, LowerBound-count p q xs h k.1)

LowerBound-get_elem? :
    (b : ℕ) (xs : List ℕ) (i p : ℕ) → LowerBound b xs → get_elem? xs i ≡ some p → b ≤ p
LowerBound-get_elem? b [] i p h e = cc
LowerBound-get_elem? b (x ∷ xs) zero p h e = ground arith
LowerBound-get_elem? b (x ∷ xs) (suc i) p h e = LowerBound-get_elem? b xs i p h.1 e

-- The element at a place of an ascending list has at most that many smaller ones, and at most as
-- many greater ones as stand behind it.
pub get_elem?-rank :
    (xs : List ℕ) (i p : ℕ)
    → IsAscending xs
    → get_elem? xs i ≡ some p
    → (count_if (λ x. ltb x p) xs ≤ i) × (count_if (λ x. ltb p x) xs + i < length xs)
get_elem?-rank [] i p h e = cc
get_elem?-rank (x ∷ xs) zero p h e =
    let k : count_if (λ y. ltb y p) xs ≡ 0 = LowerBound-count p x xs (ground arith) h.0 in
    let n : count_if (λ y. ltb p y) xs ≤ length xs = count_if-le (λ y. ltb p y) xs in ground arith
get_elem?-rank (x ∷ xs) (suc i) p h e =
    let b : x ≤ p = LowerBound-get_elem? x xs i p h.0 e in
    let ih = get_elem?-rank xs i p h.1 e in ground arith
