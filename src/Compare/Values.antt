-- ===== src/Compare/Values.antt =====
-- compare/config.py and the comparison of single values in compare/comparator.py. The arithmetic of
-- doubles and the values of any other Python type are a parameter; what they may raise is an error.
use model_hub.Prelude.{
  ℕ, ◌+◌, Bool, false, ◌&&◌, Option, none, some, String, Result, ok, ◌>>=◌, ◌==◌, if◌then◌else◌,
  str_eq,
}
use model_hub.Prelude.Int.{ℤ, pos, negsuc}
use model_hub.Common.Errors.{Exception}

pub record Doubles : Type 1 where
  pub Float : Type 0
  -- a value that is neither None nor an int, a float or a str
  pub Other : Type 0
  -- `math.isclose` of two floats with the relative and the absolute tolerance
  pub is_close : Float → Float → Float → Float → Result Exception Bool
  -- `float(n)` and `float(s)`
  pub of_int : ℤ → Result Exception Float
  pub of_text : String → Option Float
  -- `tol > 0`, `round(v / tol) * tol` and `round(v, 12)`
  pub is_positive : Float → Bool
  pub to_grid : Float → Float → Result Exception Float
  pub round_12 : Float → Float
  -- `==` and `type(a) is type(b)`
  pub float_eq : Float → Float → Bool
  pub other_eq : Other → Other → Bool
  pub same_type : Other → Other → Bool
  pub other_eq_float : Other → Float → Bool
  -- `hash` accepts the value
  pub is_hashable : Other → Bool
  -- `json.dumps` writes the value, and `json.loads` reads it back as it was
  pub json_keeps : Other → Bool

pub data ColumnMatchMode : Type 0 where
  by_position by_name : ColumnMatchMode

pub data RowOrder : Type 0 where
  ordered unordered : RowOrder

pub data DuplicateRowMode : Type 0 where
  multiset set : DuplicateRowMode

pub data TypeMode : Type 0 where
  strict coerce_numeric_and_string : TypeMode

abbrev pub int_eq : ℤ → ℤ → Bool
int_eq (pos m) (pos n) = m == n
int_eq (negsuc m) (negsuc n) = m == n
int_eq _ _ = false

-- `_NULL_TOKEN`
abbrev pub null_token : String
null_token = "\0NULL\0"

module _ (d : Doubles) where
  pub record ComparatorConfig : Type 0 where
    pub column_match_mode : ColumnMatchMode
    pub row_order : RowOrder
    pub null_equals_null : Bool
    pub float_rel_tol : d.Float
    pub float_abs_tol : d.Float
    pub both_empty_is_equal : Bool
    pub duplicate_row_mode : DuplicateRowMode
    pub type_mode : TypeMode

  pub data Value : Type 0 where
    null : Value
    integer : ℤ → Value
    floating : d.Float → Value
    str : String → Value
    other : d.Other → Value

  unfoldable pub coerce_numeric : Value → Result Exception (Option d.Float)
  coerce_numeric (integer n) = d.of_int n >>= λ f. ok (some f)
  coerce_numeric (floating f) = ok (some f)
  coerce_numeric (str s) = ok (d.of_text s)
  coerce_numeric _ = ok none

  -- `type(a) is type(b)` and `a == b`
  abbrev pub plain_eq : Value → Value → Bool
  plain_eq (integer m) (integer n) = int_eq m n
  plain_eq (floating a) (floating b) = d.float_eq a b
  plain_eq (str s) (str t) = str_eq s t
  plain_eq (other a) (other b) = d.same_type a b && d.other_eq a b
  plain_eq _ _ = false

  close_or_plain :
      ComparatorConfig → Value → Value → Option d.Float → Option d.Float → Result Exception Bool
  close_or_plain config a b (some x) (some y) =
      d.is_close x y config.float_rel_tol config.float_abs_tol
  close_or_plain config a b _ _ = ok (plain_eq a b)

  strict_eq : ComparatorConfig → Value → Value → Result Exception Bool
  strict_eq config (floating x) (floating y) =
      d.is_close x y config.float_rel_tol config.float_abs_tol
  strict_eq config a b = ok (plain_eq a b)

  -- Two values that are not None.
  nonnull_eq : ComparatorConfig → Value → Value → Result Exception Bool
  unfolding close_or_plain strict_eq
  nonnull_eq config a b = elim config.type_mode [
    | TypeMode.strict ↦ strict_eq config a b
    | TypeMode.coerce_numeric_and_string ↦
        coerce_numeric a >>= λ x. (coerce_numeric b >>= λ y. close_or_plain config a b x y)
  ]

  unfoldable pub values_equal : ComparatorConfig → Value → Value → Result Exception Bool
  unfolding nonnull_eq
  values_equal config null null = ok config.null_equals_null
  values_equal config null b = ok false
  values_equal config a null = ok false
  values_equal config a b = nonnull_eq config a b

  -- What a row is made of when rows are compared without order. `fresh` is an `object()`, known by
  -- its number among those that were made.
  pub data Canonical : Type 0 where
    fresh : ℕ → Canonical
    plain_float tagged_float : d.Float → Canonical
    plain_text tagged_text : String → Canonical
    plain_other tagged_other : d.Other → Canonical
    tagged_int : ℤ → Canonical

  unfoldable pub canonicalize_float : ComparatorConfig → d.Float → Result Exception d.Float
  canonicalize_float config v =
      if d.is_positive config.float_abs_tol
      then (d.to_grid v config.float_abs_tol >>= λ g. ok (d.round_12 g))
      else ok (d.round_12 v)

  -- Only a str and a value of another type have no number: the last three clauses are not reached.
  unfoldable pub canonicalize_coerced :
      ComparatorConfig → Value → Option d.Float → Result Exception Canonical
  canonicalize_coerced config v (some f) = canonicalize_float config f >>= λ g. ok (plain_float g)
  canonicalize_coerced config (str s) none = ok (plain_text s)
  canonicalize_coerced config (other o) none = ok (plain_other o)
  canonicalize_coerced config (floating f) none =
      canonicalize_float config f >>= λ g. ok (plain_float g)
  canonicalize_coerced config (integer n) none = ok (tagged_int n)
  canonicalize_coerced config null none = ok (plain_text null_token)

  -- Of values that are not None: the last clause is not reached.
  unfoldable pub canonicalize_strict : Value → ComparatorConfig → Result Exception Canonical
  canonicalize_strict (floating f) config = canonicalize_float config f >>= λ g. ok (tagged_float g)
  canonicalize_strict (integer n) config = ok (tagged_int n)
  canonicalize_strict (str s) config = ok (tagged_text s)
  canonicalize_strict (other o) config = ok (tagged_other o)
  canonicalize_strict null config = ok (plain_text null_token)

  unfoldable pub canonicalize_nonnull : ComparatorConfig → Value → Result Exception Canonical
  unfolding canonicalize_coerced canonicalize_strict
  canonicalize_nonnull config v = elim config.type_mode [
    | TypeMode.strict ↦ canonicalize_strict v config
    | TypeMode.coerce_numeric_and_string ↦ coerce_numeric v >>= λ f. canonicalize_coerced config v f
  ]

  -- With the number of objects made so far.
  unfoldable pub canonicalize_value :
      ComparatorConfig → Value → ℕ → Result Exception (Canonical × ℕ)
  unfolding canonicalize_nonnull
  canonicalize_value config null n =
      ok (if config.null_equals_null then (plain_text null_token, n) else (fresh n, n + 1))
  canonicalize_value config v n = canonicalize_nonnull config v >>= λ c. ok (c, n)

  -- `==` of two of them
  abbrev pub canonical_eq : Canonical → Canonical → Bool
  canonical_eq (fresh m) (fresh n) = m == n
  canonical_eq (plain_float a) (plain_float b) = d.float_eq a b
  canonical_eq (plain_text s) (plain_text t) = str_eq s t
  canonical_eq (plain_other a) (plain_other b) = d.other_eq a b
  canonical_eq (plain_other a) (plain_float b) = d.other_eq_float a b
  canonical_eq (plain_float a) (plain_other b) = d.other_eq_float b a
  canonical_eq (tagged_float a) (tagged_float b) = d.float_eq a b
  canonical_eq (tagged_text s) (tagged_text t) = str_eq s t
  canonical_eq (tagged_other a) (tagged_other b) = d.same_type a b && d.other_eq a b
  canonical_eq (tagged_int m) (tagged_int n) = int_eq m n
  canonical_eq _ _ = false
