-- ===== src/Train/TimeBudget.antt =====
-- train/time_budget.py, loss_guard.py, smoke_test.py and callbacks.py. Clock readings are whole
-- seconds, a metric and a loss are naturals on some scale, and whether a loss is finite is an
-- argument.
use model_hub.Prelude.{
  ℕ, ◌+◌, ◌*◌, ◌≤◌, ◌≡◌, ◌↔◌, Bool, true, false, not, ◌&&◌, ◌||◌, Option, none, some, List, [], ◌∷◌,
  ◌++◌, Result, ok, err, length, All, ltb, leb, ◌==◌, if◌then◌else◌, arith,
}
use model_hub.Common.Errors.{Exception, value_error}

pub record TimeBudgetTracker : Type 0 where
  pub max_hours : ℕ
  pub start_time : ℕ
  pub best_metric : Option ℕ
  pub best_step : Option ℕ

-- `__post_init__` at a clock reading; a negative budget is refused as 0 is.
unfoldable pub new_tracker : ℕ → ℕ → Result Exception TimeBudgetTracker
new_tracker max_hours now =
    if leb max_hours 0
    then err value_error
    else ok
        (record { max_hours = max_hours; start_time = now; best_metric = none; best_step = none })

-- `elapsed_hours >= max_hours`, with both sides in seconds
unfoldable pub budget_exhausted : TimeBudgetTracker → ℕ → Bool
budget_exhausted t now = leb (t.max_hours * 3600 + t.start_time) now

unfoldable pub is_best : TimeBudgetTracker → ℕ → Bool → Bool
is_best t metric higher_is_better = elim t.best_metric [
  | none ↦ true
  | some best ↦ (higher_is_better && ltb best metric) || (not higher_is_better && ltb metric best)
]

unfoldable pub record_metric : TimeBudgetTracker → ℕ → ℕ → Bool → Bool × TimeBudgetTracker
unfolding is_best
record_metric t step metric higher_is_better =
    if is_best t metric higher_is_better
    then (true, record t { best_metric = some metric; best_step = some step })
    else (false, t)

-- The loss is finite, or the batch is dumped under the step and the training halts.
pub data LossCheck : Type 0 where
  finite : LossCheck
  halted : ℕ → LossCheck

unfoldable pub check_loss_finite : Bool → ℕ → LossCheck
check_loss_finite is_finite step = if is_finite then finite else halted step

-- `on_log` where the logs hold a loss or none, and `on_step_end` with `should_training_stop`.
unfoldable pub on_log : Option Bool → ℕ → LossCheck
unfolding check_loss_finite
on_log none step = finite
on_log (some is_finite) step = check_loss_finite is_finite step

unfoldable pub on_step_end : TimeBudgetTracker → ℕ → Bool → Bool
unfolding budget_exhausted
on_step_end t now should_training_stop =
    if budget_exhausted t now then true else should_training_stop

pub record SmokeTestCriteria : Type 0 where
  pub peak_memory_ok : Bool
  pub checkpoint_atomic_ok : Bool
  pub resume_curve_matches : Bool

unfoldable pub smoke_passed : SmokeTestCriteria → Bool
smoke_passed c = c.peak_memory_ok && c.checkpoint_atomic_ok && c.resume_curve_matches

-- The texts of `failure_reasons`.
pub data SmokeFailure : Type 0 where
  peak_memory checkpoint_incomplete curve_diverged : SmokeFailure

unfoldable pub smoke_failure_reasons : SmokeTestCriteria → List SmokeFailure
smoke_failure_reasons c =
    (if c.peak_memory_ok then [] else peak_memory ∷ [])
    ++ ((if c.checkpoint_atomic_ok then [] else checkpoint_incomplete ∷ [])
        ++ (if c.resume_curve_matches then [] else curve_diverged ∷ []))

-- `peak < usable * 0.9`
unfoldable pub check_peak_memory : ℕ → ℕ → Result Exception Bool
check_peak_memory peak_memory_bytes usable_bytes =
    if leb usable_bytes 0
    then err value_error
    else ok (ltb (peak_memory_bytes * 10) (usable_bytes * 9))

-- `abs(a - b) <= tolerance`
abbrev is_near : ℕ → ℕ → ℕ → Bool
is_near tolerance a b = leb a (b + tolerance) && leb b (a + tolerance)

abbrev all_near : ℕ → List ℕ → List ℕ → Bool
all_near tolerance (a ∷ xs) (b ∷ ys) = is_near tolerance a b && all_near tolerance xs ys
all_near tolerance _ _ = true

unfoldable pub check_resume_curve_matches : List ℕ → List ℕ → ℕ → Result Exception Bool
check_resume_curve_matches uninterrupted resumed tolerance =
    if not (length uninterrupted == length resumed)
    then err value_error
    else if length uninterrupted == 0
    then err value_error
    else ok (all_near tolerance uninterrupted resumed)

unfoldable pub assert_smoke_test_passed : SmokeTestCriteria → Result Exception (Unit {0})
unfolding smoke_passed
assert_smoke_test_passed c = if not (smoke_passed c) then err value_error else ok tt

-- The tracker after a list of metrics, with the steps at which they were recorded.
abbrev record_all : List (ℕ × ℕ) → Bool → TimeBudgetTracker → TimeBudgetTracker
record_all [] higher t = t
record_all ((step, metric) ∷ ms) higher t =
    record_all ms higher (record_metric t step metric higher).1

-- No recorded metric is greater than the best one.
abbrev BestIs : List (ℕ × ℕ) → ℕ → Type 0
BestIs ms best = All (λ (step, metric). metric ≤ best) ms

record_metric-best :
    (t : TimeBudgetTracker) (step metric b : ℕ)
    → t.best_metric ≡ some b
    → (record_metric t step metric true).1.best_metric ≡ some (if ltb b metric then metric else b)
unfolding record_metric is_best
record_metric-best t step metric b h = ground arith

record_all-keeps :
    (ms : List (ℕ × ℕ)) (t : TimeBudgetTracker) (b best : ℕ)
    → t.best_metric ≡ some b
    → (record_all ms true t).best_metric ≡ some best
    → (b ≤ best) × BestIs ms best
record_all-keeps [] t b best h e = (ground arith, tt)
record_all-keeps ((step, metric) ∷ ms) t b best h e =
    let next = record_metric-best t step metric b h in
    let (le, rest) =
      record_all-keeps ms (record_metric t step metric true).1 (if ltb b metric then metric else b)
        best next e in
    (ground arith, (ground arith, rest))

-- When higher is better, no recorded metric is greater than the best metric of a tracker that was
-- new before the first of them.
pub record_all-best :
    (ms : List (ℕ × ℕ)) (max_hours now best : ℕ) (t : TimeBudgetTracker)
    → new_tracker max_hours now ≡ ok t
    → (record_all ms true t).best_metric ≡ some best
    → All (λ (step, metric). metric ≤ best) ms
unfolding new_tracker record_metric is_best
record_all-best [] max_hours now best t n e = tt
record_all-best ((step, metric) ∷ ms) max_hours now best t n e =
    let fresh : t.best_metric ≡ none = ground arith in
    let first : (record_metric t step metric true).1.best_metric ≡ some metric = ground arith in
    let (le, rest) = record_all-keeps ms (record_metric t step metric true).1 metric best first e in
    (le, rest)

-- A smoke test is let through exactly when it has no failure to report.
pub assert_smoke_test_passed-smoke_failure_reasons :
    (c : SmokeTestCriteria) → (assert_smoke_test_passed c ≡ ok tt) ↔ (smoke_failure_reasons c ≡ [])
unfolding assert_smoke_test_passed smoke_passed smoke_failure_reasons
assert_smoke_test_passed-smoke_failure_reasons c = (λ h. ground arith, λ h. ground arith)
