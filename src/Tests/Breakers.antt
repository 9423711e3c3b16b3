-- ===== src/Tests/Breakers.antt =====
-- The circuit breaker.
use model_hub.Prelude.{ℕ, ◌≡◌, refl, true, false, none, some, List, [], ◌∷◌, arith}
use model_hub.Gateway.Breaker.{
  CircuitState, CircuitBreakerConfig, CircuitBreaker, record_failure, new_breaker,
}
use model_hub.Gateway.Breaker.Invariant.{IsValid, BreakerCall, run_calls, reachable-IsValid}
use model_hub.Gateway.Breaker.Trial.{ask_all, half_open_one_trial}
use model_hub.Gateway.Breaker.Window.{record_failure_trips}

abbrev two_in_ten : CircuitBreakerConfig
two_in_ten = record { failure_threshold = 2; failure_window = 10; cooldown = 30 }

abbrev history : List (ℕ × BreakerCall)
history = (1, BreakerCall.fail) ∷ (2, BreakerCall.fail) ∷ (40, BreakerCall.ask) ∷ []

reachable-IsValid_example :
    IsValid two_in_ten
      (run_calls two_in_ten 0 history new_breaker).0
      (run_calls two_in_ten 0 history new_breaker).1
reachable-IsValid_example = reachable-IsValid two_in_ten history (omega arith)

abbrev opened_at_3 : CircuitBreaker
opened_at_3 = record {
  state = CircuitState.opened;
  failure_timestamps = [];
  opened_at = some 3;
  half_open_trial_claimed = false;
}

half_open_one_trial_example :
    (ask_all two_in_ten (40 ∷ 41 ∷ 99 ∷ []) opened_at_3).0 ≡ true ∷ false ∷ false ∷ []
half_open_one_trial_example =
    half_open_one_trial two_in_ten 3 40 (41 ∷ 99 ∷ []) opened_at_3 refl refl (omega arith)

abbrev one_failure : CircuitBreaker
one_failure = record {
  state = CircuitState.closed;
  failure_timestamps = 1 ∷ [];
  opened_at = none;
  half_open_trial_claimed = false;
}

one_failure-IsValid : IsValid two_in_ten 5 one_failure
one_failure-IsValid = record {
  closed_never_opened = λ h. refl;
  open_has_time = λ h. absurd (h refl);
  trial_only_half_open = λ h. cc;
  below_threshold = omega arith;
  in_order = omega arith;
}

record_failure_trips_example :
    let b' = record_failure two_in_ten 5 one_failure in
    (b'.state ≡ CircuitState.opened) × (b'.opened_at ≡ some 5) × (b'.failure_timestamps ≡ [])
record_failure_trips_example =
    record_failure_trips two_in_ten 5 one_failure one_failure-IsValid refl
