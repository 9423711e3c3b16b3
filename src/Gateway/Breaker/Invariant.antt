-- ===== src/Gateway/Breaker/Invariant.antt =====
-- What holds of a circuit breaker between two calls, and that every call keeps it.
use model_hub.Prelude.{
  ℕ, ◌+◌, ◌≤◌, ◌<◌, ◌≡◌, ◌≢◌, true, Option, none, some, List, [], ◌∷◌, ◌++◌, arith, length,
}
use model_hub.Gateway.Breaker.{
  CircuitState, CircuitBreakerConfig, CircuitBreaker, new_breaker, maybe_transition_to_half_open,
  state, allow_request, record_success, record_failure, drop_stale,
}

-- The numbers are in ascending order, and none is above the bound.
abbrev pub AscendingTo : ℕ → List ℕ → Type 0
AscendingTo bound [] = Unit
AscendingTo bound (t ∷ []) = t ≤ bound
AscendingTo bound (t ∷ (u ∷ ts)) = (t ≤ u) × AscendingTo bound (u ∷ ts)

-- There is an opening time, and it is not in the future.
abbrev pub OpenedBy : ℕ → Option ℕ → Type 0
OpenedBy now none = ⊥
OpenedBy now (some t) = t ≤ now

-- `now` is the last reading of the clock.
pub record IsValid (config : CircuitBreakerConfig) (now : ℕ) (b : CircuitBreaker) : Type 0 where
  pub closed_never_opened : b.state ≡ CircuitState.closed → b.opened_at ≡ none
  pub open_has_time : b.state ≢ CircuitState.closed → OpenedBy now b.opened_at
  pub trial_only_half_open : b.half_open_trial_claimed ≡ true → b.state ≡ CircuitState.half_open
  pub below_threshold : length b.failure_timestamps < config.failure_threshold
  pub in_order : AscendingTo now b.failure_timestamps

AscendingTo-trans : (m n : ℕ) (ts : List ℕ) → m ≤ n → AscendingTo m ts → AscendingTo n ts
AscendingTo-trans m n [] h k = tt
AscendingTo-trans m n (t ∷ []) h k = omega arith
AscendingTo-trans m n (t ∷ (u ∷ ts)) h k = (k.0, AscendingTo-trans m n (u ∷ ts) h k.1)

AscendingTo-tail : (m t : ℕ) (ts : List ℕ) → AscendingTo m (t ∷ ts) → AscendingTo m ts
AscendingTo-tail m t [] k = tt
AscendingTo-tail m t (u ∷ ts) k = k.1

pub AscendingTo-append :
    (m n : ℕ) (ts : List ℕ) → m ≤ n → AscendingTo m ts → AscendingTo n (ts ++ (n ∷ []))
AscendingTo-append m n [] h k = omega arith
AscendingTo-append m n (t ∷ []) h k = omega arith
AscendingTo-append m n (t ∷ (u ∷ ts)) h k = (k.0, AscendingTo-append m n (u ∷ ts) h k.1)

pub AscendingTo-drop_stale :
    (window now m : ℕ) (ts : List ℕ) → AscendingTo m ts → AscendingTo m (drop_stale window now ts)
unfolding drop_stale
AscendingTo-drop_stale window now m [] k = tt
AscendingTo-drop_stale window now m (t ∷ ts) k =
    ground (arith, AscendingTo-drop_stale window now m ts, AscendingTo-tail m t ts k)

OpenedBy-later : (m n : ℕ) (o : Option ℕ) → m ≤ n → OpenedBy m o → OpenedBy n o
OpenedBy-later m n none h k = k
OpenedBy-later m n (some t) h k = omega arith

pub new_breaker-IsValid :
    (config : CircuitBreakerConfig) → 0 < config.failure_threshold → IsValid config 0 new_breaker
unfolding new_breaker
new_breaker-IsValid config h = ground arith

pub IsValid-later :
    (config : CircuitBreakerConfig) (m n : ℕ) (b : CircuitBreaker)
    → m ≤ n
    → IsValid config m b
    → IsValid config n b
IsValid-later config m n b h v = record {
  closed_never_opened = v.closed_never_opened;
  open_has_time = λ e. OpenedBy-later m n b.opened_at h (v.open_has_time e);
  trial_only_half_open = v.trial_only_half_open;
  below_threshold = v.below_threshold;
  in_order = AscendingTo-trans m n b.failure_timestamps h v.in_order;
}

-- Reading the state, which may start the half-open phase, keeps the invariant.
pub maybe_transition_to_half_open-IsValid :
    (config : CircuitBreakerConfig) (now : ℕ) (b : CircuitBreaker)
    → IsValid config now b
    → IsValid config now (maybe_transition_to_half_open config now b)
unfolding maybe_transition_to_half_open
maybe_transition_to_half_open-IsValid config now b v = ground arith

pub allow_request-IsValid :
    (config : CircuitBreakerConfig) (now : ℕ) (b : CircuitBreaker)
    → IsValid config now b
    → IsValid config now (allow_request config now b).1
unfolding allow_request
allow_request-IsValid config now b v = ground arith

pub record_success-IsValid :
    (config : CircuitBreakerConfig) (now : ℕ) (b : CircuitBreaker)
    → IsValid config now b
    → IsValid config now (record_success b)
unfolding record_success
record_success-IsValid config now b v = ground arith

pub record_failure-IsValid :
    (config : CircuitBreakerConfig) (now : ℕ) (b : CircuitBreaker)
    → IsValid config now b
    → IsValid config now (record_failure config now b)
unfolding record_failure
record_failure-IsValid config now b v = ground (
  arith,
  AscendingTo-drop_stale config.failure_window now now (b.failure_timestamps ++ (now ∷ [])),
  AscendingTo-append now now b.failure_timestamps,
)

-- One call of the breaker, made when the clock reads `now`.
pub data BreakerCall : Type 0 where
  read_state ask succeed fail : BreakerCall

pub call : CircuitBreakerConfig → ℕ → BreakerCall → CircuitBreaker → CircuitBreaker
call config now BreakerCall.read_state b = (state config now b).1
call config now BreakerCall.ask b = (allow_request config now b).1
call config now BreakerCall.succeed b = record_success b
call config now BreakerCall.fail b = record_failure config now b

-- A history of calls, each with the time that passed since the one before.
pub run_calls :
    CircuitBreakerConfig → ℕ → List (ℕ × BreakerCall) → CircuitBreaker → ℕ × CircuitBreaker
unfolding call
run_calls config now [] b = (now, b)
run_calls config now ((d, c) ∷ cs) b = run_calls config (now + d) cs (call config (now + d) c b)

call-IsValid :
    (config : CircuitBreakerConfig) (now : ℕ) (c : BreakerCall) (b : CircuitBreaker)
    → IsValid config now b
    → IsValid config now (call config now c b)
unfolding call state
call-IsValid config now BreakerCall.read_state b v =
    maybe_transition_to_half_open-IsValid config now b v
call-IsValid config now BreakerCall.ask b v = allow_request-IsValid config now b v
call-IsValid config now BreakerCall.succeed b v = record_success-IsValid config now b v
call-IsValid config now BreakerCall.fail b v = record_failure-IsValid config now b v

run_calls-IsValid :
    (config : CircuitBreakerConfig) (now : ℕ) (cs : List (ℕ × BreakerCall)) (b : CircuitBreaker)
    → IsValid config now b
    → IsValid config (run_calls config now cs b).0 (run_calls config now cs b).1
unfolding run_calls
run_calls-IsValid config now [] b v = v
run_calls-IsValid config now ((d, c) ∷ cs) b v =
    run_calls-IsValid config (now + d) cs (call config (now + d) c b)
      (call-IsValid config (now + d) c b (IsValid-later config now (now + d) b (omega arith) v))

-- With a positive threshold, a new breaker is valid after any history of calls: it has an opening
-- time, not in the future, exactly when it is not CLOSED; the trial slot is claimed only in
-- HALF_OPEN; and it holds fewer failures than the threshold, oldest first.
pub reachable-IsValid :
    (config : CircuitBreakerConfig) (cs : List (ℕ × BreakerCall))
    → 0 < config.failure_threshold
    → IsValid config (run_calls config 0 cs new_breaker).0 (run_calls config 0 cs new_breaker).1
reachable-IsValid config cs h =
    run_calls-IsValid config 0 cs new_breaker (new_breaker-IsValid config h)
