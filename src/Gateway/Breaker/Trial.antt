-- ===== src/Gateway/Breaker/Trial.antt =====
-- OPEN refuses until the cooldown is over, and HALF_OPEN lets exactly one trial request through.
use model_hub.Prelude.{
  ℕ, ◌+◌, ◌≤◌, ◌<◌, ◌≡◌, refl, Bool, true, false, some, List, [], ◌∷◌, arith, All, map,
}
use model_hub.Gateway.Breaker.{CircuitState, CircuitBreakerConfig, CircuitBreaker, allow_request}

-- Requests that ask one after another, at the given times, while no call reports an outcome.
pub ask_all : CircuitBreakerConfig → List ℕ → CircuitBreaker → List Bool × CircuitBreaker
ask_all config [] b = ([], b)
ask_all config (now ∷ times) b =
    let (allowed, b') = allow_request config now b in
    let (rest, b'') = ask_all config times b' in (allowed ∷ rest, b'')

-- Before the cooldown is over, an OPEN breaker refuses every request and stays as it is.
pub ask_all-opened :
    (config : CircuitBreakerConfig) (t : ℕ) (times : List ℕ) (b : CircuitBreaker)
    → b.state ≡ CircuitState.opened
    → b.opened_at ≡ some t
    → All (λ now. now < t + config.cooldown) times
    → ask_all config times b ≡ (map (λ _. false) times, b)
unfolding ask_all allow_request
ask_all-opened config t [] b e o h = refl
ask_all-opened config t (now ∷ times) b e o h =
    ground (arith, ask_all-opened config t times b e o h.1)

-- While the trial is claimed and unresolved, every request is refused and nothing changes.
pub ask_all-claimed :
    (config : CircuitBreakerConfig) (times : List ℕ) (b : CircuitBreaker)
    → b.state ≡ CircuitState.half_open
    → b.half_open_trial_claimed ≡ true
    → ask_all config times b ≡ (map (λ _. false) times, b)
unfolding ask_all allow_request
ask_all-claimed config [] b e c = refl
ask_all-claimed config (now ∷ times) b e c = ground (arith, ask_all-claimed config times b e c)

allow_request_cooled :
    (config : CircuitBreakerConfig) (t now : ℕ) (b : CircuitBreaker)
    → b.state ≡ CircuitState.opened
    → b.opened_at ≡ some t
    → t + config.cooldown ≤ now
    → allow_request config now b
      ≡ (true, record b { state = CircuitState.half_open; half_open_trial_claimed = true })
unfolding allow_request
allow_request_cooled config t now b e o h = ground arith

-- Once the cooldown of an OPEN breaker is over, the first request is let through and all later
-- ones, at any times, are refused until the trial's outcome is reported.
pub half_open_one_trial :
    (config : CircuitBreakerConfig) (t now : ℕ) (times : List ℕ) (b : CircuitBreaker)
    → b.state ≡ CircuitState.opened
    → b.opened_at ≡ some t
    → t + config.cooldown ≤ now
    → (ask_all config (now ∷ times) b).0 ≡ true ∷ map (λ _. false) times
unfolding ask_all
half_open_one_trial config t now times b e o h = ground (
  arith,
  allow_request_cooled config t now b e o h,
  ask_all-claimed config times
      (record b { state = CircuitState.half_open; half_open_trial_claimed = true }),
)
