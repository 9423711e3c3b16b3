-- ===== src/Prelude/Outcome.antt =====
-- The outcome of Python code that may raise: a value, or the exception that escapes.
use mathlib.Core.Path.{◌≡◌, refl, ap, subst}
use mathlib.Core.Logic.{◌⊎◌, inl, inr}
use mathlib.Core.Bool.{Bool, true, false}

pub data Result {ℓ κ} (E : Type ℓ) (A : Type κ) : Type (ℓ ⊔ κ) where
  ok : A → Result E A
  err : E → Result E A

infixl 5 ◌>>=◌ ◌>>◌
abbrev pub ◌>>=◌ {ℓ κ μ} :
    {E : Type ℓ} {A : Type κ} {B : Type μ} → Result E A → (A → Result E B) → Result E B
ok a >>= f = f a
err e >>= f = err e

abbrev pub ◌>>◌ {ℓ κ μ} :
    {E : Type ℓ} {A : Type κ} {B : Type μ} → Result E A → Result E B → Result E B
m >> k = m >>= λ _. k

-- `if c: raise e`
abbrev pub raise_if {ℓ} : {E : Type ℓ} → Bool → E → Result E (Unit {0})
raise_if true e = err e
raise_if false e = ok tt

pub Result-cases {ℓ κ} :
    {E : Type ℓ} {A : Type κ} (r : Result E A) → ((a : A) × (r ≡ ok a)) ⊎ ((e : E) × (r ≡ err e))
Result-cases (ok a) = inl (a, refl)
Result-cases (err e) = inr (e, refl)

abbrev err_or {ℓ κ} : {E : Type ℓ} {A : Type κ} → E → Result E A → E
err_or e (ok a) = e
err_or e (err e') = e'

pub err-injective {ℓ κ} :
    {E : Type ℓ} {A : Type κ} {x y : E} → ◌≡◌ {A = Result E A} (err x) (err y) → x ≡ y
err-injective {x = x} h = ap (err_or x) h

abbrev ok_or {ℓ κ} : {E : Type ℓ} {A : Type κ} → A → Result E A → A
ok_or a (ok b) = b
ok_or a (err e) = a

pub ok-injective {ℓ κ} :
    {E : Type ℓ} {A : Type κ} {x y : A} → ◌≡◌ {A = Result E A} (ok x) (ok y) → x ≡ y
ok-injective {x = x} h = ap (ok_or x) h

module _ {ℓ κ μ} {E : Type ℓ} {A : Type κ} where
  -- The value, if there is one, has the property.
  abbrev pub Ensures : (A → Type μ) → Result E A → Type μ
  Ensures P (ok a) = P a
  Ensures P (err e) = Unit

  pub Ensures_ok : (P : A → Type μ) (r : Result E A) (a : A) → Ensures P r → r ≡ ok a → P a
  Ensures_ok P (ok b) a h e = subst P (ok-injective e) h
  Ensures_ok P (err x) a h e = cc

module _ {ℓ κ μ ν θ} {E : Type ℓ} {A : Type κ} {B : Type μ} where
  pub Ensures-bind :
      (P : A → Type ν) (Q : B → Type θ) (r : Result E A) (f : A → Result E B)
      → Ensures P r
      → ((a : A) → r ≡ ok a → P a → Ensures Q (f a))
      → Ensures Q (r >>= f)
  Ensures-bind P Q (ok a) f h k = k a refl h
  Ensures-bind P Q (err e) f h k = tt

module _ {ℓ κ} {E : Type ℓ} {A : Type κ} where
  -- There is a value, and it has the property.
  abbrev pub Yields : (A → Type 0) → Result E A → Type 0
  Yields P (ok a) = P a
  Yields P (err e) = ⊥

  pub Yields-ok : (P : A → Type 0) (r : Result E A) → Yields P r → (a : A) × (r ≡ ok a) × P a
  Yields-ok P (ok a) h = (a, refl, h)
  Yields-ok P (err e) h = absurd h

module _ {ℓ κ μ ν} {E : Type ℓ} {A : Type κ} {B : Type μ} where
  -- The rule for `>>=` where all that is needed of the first step is what it returned.
  pub Ensures-bind_any :
      (Q : B → Type ν) (r : Result E A) (f : A → Result E B)
      → ((a : A) → r ≡ ok a → Ensures Q (f a))
      → Ensures Q (r >>= f)
  Ensures-bind_any Q (ok a) f k = k a refl
  Ensures-bind_any Q (err e) f k = tt
