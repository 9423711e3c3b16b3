-- ===== src/Gateway/Breaker/Window.antt =====
-- When the breaker trips: the deque with its sliding window against a plain count of failures.
use model_hub.Prelude.{
  ℕ, ◌+◌, ◌≤◌, ◌≡◌, refl, Bool, none, some, List, [], ◌∷◌, ◌++◌, arith, length, leb, if◌then◌else◌,
}
use model_hub.Prelude.Counting.{filter_if}
use model_hub.Gateway.Breaker.{
  CircuitState, CircuitBreakerConfig, CircuitBreaker, record_failure, drop_stale,
}
use model_hub.Gateway.Breaker.Invariant.{IsValid, AscendingTo, AscendingTo-append}

-- The failure happened no longer ago than the window.
abbrev pub is_recent : ℕ → ℕ → ℕ → Bool
is_recent window now t = leb now (t + window)

-- Once one timestamp is recent, those after it are.
all_recent :
    (window now bound t : ℕ) (ts : List ℕ)
    → AscendingTo bound (t ∷ ts)
    → now ≤ t + window
    → filter_if (is_recent window now) (t ∷ ts) ≡ t ∷ ts
all_recent window now bound t [] k h = ground arith
all_recent window now bound t (u ∷ ts) k h =
    ground (arith, all_recent window now bound u ts k.1 (omega arith))

-- On timestamps in order the loop leaves what a filter would.
drop_stale_lem :
    (window now bound : ℕ) (ts : List ℕ)
    → AscendingTo bound ts
    → drop_stale window now ts ≡ filter_if (is_recent window now) ts
unfolding drop_stale
drop_stale_lem window now bound [] k = refl
drop_stale_lem window now bound (t ∷ []) k = ground arith
drop_stale_lem window now bound (t ∷ (u ∷ ts)) k =
    ground (
      arith,
      drop_stale_lem window now bound (u ∷ ts) k.1,
      all_recent window now bound t (u ∷ ts) k,
    )

filter_if-snoc :
    (window now : ℕ) (ts : List ℕ)
    → filter_if (is_recent window now) (ts ++ now ∷ [])
      ≡ filter_if (is_recent window now) ts ++ now ∷ []
filter_if-snoc window now [] = ground arith
filter_if-snoc window now (t ∷ ts) = ground (arith, filter_if-snoc window now ts)

length-snoc : (now : ℕ) (ts : List ℕ) → length (ts ++ now ∷ []) ≡ length ts + 1
length-snoc now [] = refl
length-snoc now (t ∷ ts) = ground (arith, length-snoc now ts)

-- In a valid breaker that is CLOSED, a failure at time `now` opens it exactly when this failure
-- and the recorded ones that are no older than the window reach the threshold together; it is
-- OPEN then, as of `now`, and has forgotten the failures. Otherwise the deque holds the recorded
-- failures that are no older than the window, in their order, and this one.
pub record_failure_trips :
    (config : CircuitBreakerConfig) (now : ℕ) (b : CircuitBreaker)
    → IsValid config now b
    → b.state ≡ CircuitState.closed
    → let recent = filter_if (is_recent config.failure_window now) b.failure_timestamps in
      let b' = record_failure config now b in
      (b'.state ≡ (
        if leb config.failure_threshold (length recent + 1)
        then CircuitState.opened
        else CircuitState.closed))
      × (b'.opened_at
          ≡ (if leb config.failure_threshold (length recent + 1) then some now else none))
      × (b'.failure_timestamps
          ≡ (if leb config.failure_threshold (length recent + 1) then [] else recent ++ now ∷ []))
unfolding record_failure
record_failure_trips config now b v e =
    let ts = b.failure_timestamps in
    ground (
      arith,
      drop_stale_lem config.failure_window now now (ts ++ now ∷ []),
      AscendingTo-append now now ts,
      filter_if-snoc config.failure_window now ts,
      length-snoc now (filter_if (is_recent config.failure_window now) ts),
    )
