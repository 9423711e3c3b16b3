-- ===== src/Prelude/Ratio.antt =====
-- A quotient of two counts or a decimal threshold, as a fraction with a positive denominator.
-- Comparisons are exact. The source divides in double precision, where a quotient of counts and a
-- decimal literal compare as the exact fractions do as long as the product of the two denominators
-- stays below 2 ^ 52, since rounding is monotone and the fractions lie further apart than that.
use Prim.Native.Nat.{ℕ, ◌*◌, ◌<◌}
use mathlib.Core.Bool.{Bool}
use model_hub.Prelude.Tests.{ltb}

pub record Ratio : Type 0 where
  pub num : ℕ
  pub den : ℕ

abbrev pub IsPositive : Ratio → Type 0
IsPositive r = 0 < r.den

-- a < b
abbrev pub ratio_lt : Ratio → Ratio → Bool
ratio_lt a b = ltb (a.num * b.den) (b.num * a.den)

-- `a / b` of two counts
abbrev pub ratio : ℕ → ℕ → Ratio
ratio a b = record { num = a; den = b }
