-- ===== src/Gateway/Breaker.antt =====
-- gateway/circuit_breaker.py. Times are clock ticks: `now_fn` is read at most once in a call, and
-- its reading is the argument `now`. `now - t >= d` is written `t + d <= now`, without subtraction.
pub mod Invariant
pub mod Window
pub mod Trial
use model_hub.Prelude.{
  ℕ, ◌+◌, Bool, true, false, Option, none, some, List, [], ◌∷◌, ◌++◌, Result, ok, err, length, leb,
  ltb, if◌then◌else◌,
}
use model_hub.Common.Errors.{
  ModelHubError, ErrorCode, gateway_error, circuit_breaker_open, serve, text,
}
use model_hub.Prelude.{String}

pub data CircuitState : Type 0 where
  closed opened half_open : CircuitState

pub record CircuitBreakerConfig : Type 0 where
  pub failure_threshold : ℕ
  pub failure_window : ℕ
  pub cooldown : ℕ

-- The fields of a `CircuitBreaker` object that change.
pub record CircuitBreaker : Type 0 where
  pub state : CircuitState
  pub failure_timestamps : List ℕ
  pub opened_at : Option ℕ
  pub half_open_trial_claimed : Bool

unfoldable pub new_breaker : CircuitBreaker
new_breaker = record {
  state = CircuitState.closed;
  failure_timestamps = [];
  opened_at = none;
  half_open_trial_claimed = false;
}

half_open_if_cooled :
    CircuitBreakerConfig → ℕ → CircuitState → Option ℕ → CircuitBreaker → CircuitBreaker
half_open_if_cooled config now CircuitState.opened (some t) b =
    if leb (t + config.cooldown) now
    then record b { state = CircuitState.half_open; half_open_trial_claimed = false }
    else b
half_open_if_cooled config now _ _ b = b

unfoldable pub maybe_transition_to_half_open :
    CircuitBreakerConfig → ℕ → CircuitBreaker → CircuitBreaker
unfolding half_open_if_cooled
maybe_transition_to_half_open config now b = half_open_if_cooled config now b.state b.opened_at b

-- The property `state`, which may move the breaker.
unfoldable pub state : CircuitBreakerConfig → ℕ → CircuitBreaker → CircuitState × CircuitBreaker
unfolding maybe_transition_to_half_open
state config now b = let b' = maybe_transition_to_half_open config now b in (b'.state, b')

admit : CircuitState → CircuitBreaker → Bool × CircuitBreaker
admit CircuitState.opened b = (false, b)
admit CircuitState.half_open b =
    if b.half_open_trial_claimed
    then (false, b)
    else (true, record b { half_open_trial_claimed = true })
admit CircuitState.closed b = (true, b)

unfoldable pub allow_request : CircuitBreakerConfig → ℕ → CircuitBreaker → Bool × CircuitBreaker
unfolding state admit
allow_request config now b = let (current, b') = state config now b in admit current b'

unfoldable pub record_success : CircuitBreaker → CircuitBreaker
record_success b = record {
  state = CircuitState.closed;
  failure_timestamps = [];
  opened_at = none;
  half_open_trial_claimed = false;
}

-- The `while` loop: failures before the window are dropped from the left.
unfoldable pub drop_stale : ℕ → ℕ → List ℕ → List ℕ
drop_stale window now [] = []
drop_stale window now (t ∷ ts) = if ltb (t + window) now then drop_stale window now ts else t ∷ ts

-- What `record_failure` does when the breaker is not in HALF_OPEN.
count_failure : CircuitBreakerConfig → ℕ → CircuitBreaker → CircuitBreaker
count_failure config now b =
    let recent = drop_stale config.failure_window now (b.failure_timestamps ++ (now ∷ [])) in
    if leb config.failure_threshold (length recent)
    then record b { state = CircuitState.opened; opened_at = some now; failure_timestamps = [] }
    else record b { failure_timestamps = recent }

fail_in : CircuitState → CircuitBreakerConfig → ℕ → CircuitBreaker → CircuitBreaker
fail_in CircuitState.half_open config now b = record {
  state = CircuitState.opened;
  failure_timestamps = [];
  opened_at = some now;
  half_open_trial_claimed = false;
}
fail_in _ config now b = count_failure config now b

unfoldable pub record_failure : CircuitBreakerConfig → ℕ → CircuitBreaker → CircuitBreaker
unfolding fail_in count_failure
record_failure config now b = fail_in b.state config now b

abbrev pub state_value : CircuitState → String
state_value CircuitState.closed = "CLOSED"
state_value CircuitState.opened = "OPEN"
state_value CircuitState.half_open = "HALF_OPEN"

abbrev pub breaker_error : CircuitState → ModelHubError
breaker_error s = record {
  error_class = gateway_error;
  code = circuit_breaker_open;
  stage = serve;
  context = ("state", text (state_value s)) ∷ [];
  retryable = true;
}

unfoldable pub guard :
    CircuitBreakerConfig → ℕ → CircuitBreaker → Result ModelHubError (Unit {0}) × CircuitBreaker
unfolding allow_request
guard config now b =
    let (allowed, b') = allow_request config now b in
    (if allowed then ok tt else err (breaker_error b'.state), b')
