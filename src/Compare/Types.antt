-- ===== src/Compare/Types.antt =====
-- compare/result_types.py. The texts and the context that explain an outcome are left out.
use model_hub.Prelude.{Bool, true, false, Option, none, some}

pub data ComparisonResult : Type 0 where
  equal not_equal undecidable : ComparisonResult

pub data UndecidableReason : Type 0 where
  too_large internal_error incomparable_shape gold_exec_failed : UndecidableReason

pub record ComparisonOutcome : Type 0 where
  pub result : ComparisonResult
  pub reason : Option UndecidableReason

abbrev pub equal_outcome : ComparisonOutcome
equal_outcome = record { result = ComparisonResult.equal; reason = none }

abbrev pub not_equal_outcome : ComparisonOutcome
not_equal_outcome = record { result = ComparisonResult.not_equal; reason = none }

abbrev pub undecidable_outcome : UndecidableReason → ComparisonOutcome
undecidable_outcome why = record { result = ComparisonResult.undecidable; reason = some why }

-- `x is ComparisonResult.EQUAL` for a result or None
abbrev pub is_equal : Option ComparisonResult → Bool
is_equal (some ComparisonResult.equal) = true
is_equal _ = false

-- `x is ComparisonResult.UNDECIDABLE`
abbrev pub is_undecidable : Option ComparisonResult → Bool
is_undecidable (some ComparisonResult.undecidable) = true
is_undecidable _ = false
