-- ===== src/Gateway/RateLimit/Window.antt =====
-- The limiter over a run of requests from any tenants within one window, and its expiry.
use model_hub.Prelude.{
  ℕ, ◌+◌, ◌-◌, ◌<◌, ◌≡◌, ◌≢◌, refl, inl, inr, ◌&&◌, none, some, List, [], ◌∷◌, String, arith, leb,
  ◌==◌, min, str_eq, str_eq_iff, if◌then◌else◌, Bool-cases,
}
use model_hub.Prelude.Counting.{count_if}
use model_hub.Prelude.Text.{str_eq-append_left}
use model_hub.Gateway.Redis.{Redis, IsLawful}
use model_hub.Gateway.RateLimit.{RateLimitConfig, rate_limit_key, check_rate_limit}

-- What happens to the limiter: a tenant's request, or the passing of time.
pub data LimiterEvent : Type 0 where
  request : String → LimiterEvent
  elapse : ℕ → LimiterEvent

module _ (r : Redis) (lawful : IsLawful r) (config : RateLimitConfig)
    (w : 0 < config.window_seconds) where
  -- The counter that a request reads and writes.
  abbrev counter : r.State → String → ℕ
  counter s p = r.value s (rate_limit_key p)

  counter-check :
      (p q : String) (s : r.State)
      → counter (check_rate_limit r p config s).1 q
        ≡ (if str_eq q p then counter s p + 1 else counter s q)
  unfolding check_rate_limit
  counter-check p q s = ground (
    arith,
    lawful.incrby-result (rate_limit_key p) 1 s,
    lawful.value-expire (rate_limit_key q) (rate_limit_key p) config.window_seconds
        (r.incrby (rate_limit_key p) 1 s).1 w,
    lawful.value-incrby (rate_limit_key q) (rate_limit_key p) 1 s,
    str_eq-append_left "modelhub:ratelimit:" q p,
  )

  -- Each request is counted once, for its own tenant only, and is allowed exactly while the count,
  -- itself included, is within the limit.
  check_decides :
      (p : String) (s : r.State)
      → (check_rate_limit r p config s).0 ≡ record {
        allowed = leb (counter s p + 1) config.requests_per_window;
        current_count = counter s p + 1;
        limit = config.requests_per_window;
      }
  unfolding check_rate_limit
  check_decides p s = rw (lawful.incrby-result (rate_limit_key p) 1 s) refl

  -- How many of a tenant's requests are allowed, among requests of all tenants.
  pub admitted : String → List String → r.State → ℕ
  admitted p [] s = 0
  admitted p (q ∷ qs) s =
      let (decision, s') = check_rate_limit r q config s in
      (if str_eq p q && decision.allowed then 1 else 0) + admitted p qs s'

  -- On a server that keeps the documented behaviour of INCR and EXPIRE: while no key expires, of
  -- the requests that a tenant makes, in any interleaving with those of other tenants, as many are
  -- allowed as the limit has left over its count at the start, or all if they are fewer.
  pub admitted_lem :
      (p : String) (qs : List String) (s : r.State)
      → admitted p qs s
        ≡ min (count_if (str_eq p) qs) (config.requests_per_window - r.value s (rate_limit_key p))
  unfolding admitted
  admitted_lem p [] s = omega arith
  admitted_lem p (q ∷ qs) s = elim (Bool-cases (str_eq p q)) [
    | inl e ↦
        let same : p ≡ q = (str_eq_iff p q).0 e in
        ground (
          arith,
          check_decides q s,
          counter-check q p s,
          admitted_lem p qs (check_rate_limit r q config s).1,
        )
    | inr e ↦
        ground (arith, counter-check q p s, admitted_lem p qs (check_rate_limit r q config s).1)
  ]

  -- A request starts the window of a counter that is not there, and never moves the end of a
  -- window that has begun, its own tenant's or another's.
  pub ttl-check :
      (p q : String) (s : r.State)
      → r.ttl (check_rate_limit r p config s).1 (rate_limit_key q) ≡ (
          if str_eq q p && (counter s p == 0)
          then some config.window_seconds
          else r.ttl s (rate_limit_key q))
  unfolding check_rate_limit
  ttl-check p q s = ground (
    arith,
    lawful.incrby-result (rate_limit_key p) 1 s,
    lawful.ttl-expire (rate_limit_key q) (rate_limit_key p) config.window_seconds
        (r.incrby (rate_limit_key p) 1 s).1 w,
    lawful.value-incrby (rate_limit_key p) (rate_limit_key p) 1 s,
    str_eq_iff (rate_limit_key p) (rate_limit_key p),
    lawful.ttl-incrby (rate_limit_key q) (rate_limit_key p) 1 s,
    str_eq-append_left "modelhub:ratelimit:" q p,
  )

  -- No counter is left to grow for ever.
  abbrev pub Expires : r.State → Type 0
  Expires s = (p : String) → 0 < r.value s (rate_limit_key p) → r.ttl s (rate_limit_key p) ≢ none

  check-Expires : (p : String) (s : r.State) → Expires s → Expires (check_rate_limit r p config s).1
  check-Expires p s h q = elim (Bool-cases (str_eq q p)) [
    | inl e ↦
        let same : q ≡ p = (str_eq_iff q p).0 e in λ c. ground (arith, ttl-check p q s, h p, h q)
    | inr e ↦ λ c. ground (arith, ttl-check p q s, counter-check p q s, h q)
  ]

  wait-Expires : (d : ℕ) (s : r.State) → Expires s → Expires (r.wait d s)
  wait-Expires d s h p c =
      ground (
        arith,
        lawful.value-wait d (rate_limit_key p) s,
        lawful.ttl-wait d (rate_limit_key p) s,
        h p,
      )

  unfoldable pub run_events : List LimiterEvent → r.State → r.State
  run_events [] s = s
  run_events (request p ∷ es) s = run_events es (check_rate_limit r p config s).1
  run_events (elapse d ∷ es) s = run_events es (r.wait d s)

  -- On a server that keeps the documented behaviour, and with a positive window: if every counter
  -- of the limiter that is above 0 has a time to live, then so it is after any history of requests
  -- and waits.
  pub run_events-Expires :
      (es : List LimiterEvent) (s : r.State) → Expires s → Expires (run_events es s)
  unfolding run_events
  run_events-Expires [] s h = h
  run_events-Expires (request p ∷ es) s h =
      run_events-Expires es (check_rate_limit r p config s).1 (check-Expires p s h)
  run_events-Expires (elapse d ∷ es) s h = run_events-Expires es (r.wait d s) (wait-Expires d s h)
