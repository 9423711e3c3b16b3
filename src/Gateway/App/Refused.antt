-- ===== src/Gateway/App/Refused.antt =====
-- Requests that are refused or fail: the status, and what they leave behind.
use model_hub.Prelude.{◌≡◌, true, false, none, some, String, Result, ok, err, arith, ◌∙◌, ap, sym}
use model_hub.Prelude.Dict.{insert}
use model_hub.Common.Errors.{ModelHubError, Exception, hub_error, http_error, other_error}
use model_hub.Gateway.Redis.{Redis}
use model_hub.Gateway.Auth.{Principal, authenticate, authenticate-err}
use model_hub.Gateway.RateLimit.{RateLimitDecision, check_rate_limit, enforce_rate_limit}
use model_hub.Gateway.Breaker.{CircuitBreaker, allow_request, guard, record_failure, state}
use model_hub.Gateway.App.Types.{
  CompletionRequest, GatewayDeps, GatewayState, Readings, ModelBackend,
}
use model_hub.Gateway.App.Handler.{
  http, authenticate_and_rate_limit, resolve_backend, generate, on_exception, serve_with,
  completions, http_exception_for,
}

module _ (r : Redis) (d : GatewayDeps) (now : Readings) (req : CompletionRequest) (key : String)
    (s : GatewayState r) where
  -- A request whose key is unknown gets status 401, without a Retry-After, and touches neither the
  -- counters nor a breaker.
  pub completions_unauthenticated :
      {e : ModelHubError}
      → authenticate d.hash_api_key key d.auth_config ≡ err e
      → ((completions r d now req key s).0 ≡ err (http 401 false))
        × ((completions r d now req key s).1.store ≡ s.store)
        × ((completions r d now req key s).1.circuit_breakers ≡ s.circuit_breakers)
  unfolding completions authenticate_and_rate_limit on_exception http_exception_for
  completions_unauthenticated h =
      ground (arith, authenticate-err d.hash_api_key key d.auth_config h)

  module _ (p : Principal) (known : authenticate d.hash_api_key key d.auth_config ≡ ok p) where
    -- The rate limiter's decision for this request.
    abbrev pub rate : RateLimitDecision × r.State
    rate = check_rate_limit r p.tenant_id d.rate_limit_config s.store

    -- A request over its tenant's rate gets status 429 with a Retry-After. It has been counted, and
    -- touches no breaker.
    pub completions_over_rate :
        rate.0.allowed ≡ false
        → ((completions r d now req key s).0 ≡ err (http 429 true))
          × ((completions r d now req key s).1.store ≡ rate.1)
          × ((completions r d now req key s).1.circuit_breakers ≡ s.circuit_breakers)
    unfolding completions authenticate_and_rate_limit on_exception http_exception_for
        enforce_rate_limit
    completions_over_rate h = ground arith

    module _ (within : rate.0.allowed ≡ true) where
      -- The state in which the request is routed: the rate is counted.
      abbrev counted : GatewayState r
      counted = record s { store = rate.1 }

      authenticated_ok : (authenticate_and_rate_limit r d key s).0 ≡ ok p
      unfolding authenticate_and_rate_limit enforce_rate_limit
      authenticated_ok = ground arith

      authenticated_state : counted ≡ (authenticate_and_rate_limit r d key s).1
      unfolding authenticate_and_rate_limit enforce_rate_limit
      authenticated_state = ground arith

      -- The backend is looked up in the state that authentication leaves.
      resolved_there :
          {x : Result Exception ModelBackend}
          → resolve_backend r d req counted ≡ x
          → resolve_backend r d req (authenticate_and_rate_limit r d key s).1 ≡ x
      resolved_there f = ap (resolve_backend r d req) (sym authenticated_state) ∙ f

      completions_routed :
          {m : ModelBackend}
          → resolve_backend r d req counted ≡ ok m
          → completions r d now req key s ≡ serve_with r d now req p m counted
      unfolding completions
      completions_routed {m} f =
          rw (authenticated_ok, completions)
            (rw (resolved_there f, completions)
              (ap (serve_with r d now req p m) (sym authenticated_state)))

      unrouted_error :
          (e : Exception)
          → resolve_backend r d req counted ≡ err e
          → ((on_exception r "unknown" e counted).0 ≡ err (http 500 false))
            × ((on_exception r "unknown" e counted).1.store ≡ rate.1)
            × ((on_exception r "unknown" e counted).1.circuit_breakers ≡ s.circuit_breakers)
      unfolding on_exception resolve_backend
      unrouted_error (http_error e) f = ground arith
      unrouted_error (hub_error e) f = absurd (ground arith)
      unrouted_error _ f = absurd (ground arith)

      -- A request that is routed to a model with no client or no breaker gets status 500; it has
      -- been counted, and touches no breaker.
      pub completions_unrouted :
          {e : Exception}
          → resolve_backend r d req counted ≡ err e
          → ((completions r d now req key s).0 ≡ err (http 500 false))
            × ((completions r d now req key s).1.store ≡ rate.1)
            × ((completions r d now req key s).1.circuit_breakers ≡ s.circuit_breakers)
      unfolding completions
      completions_unrouted {e} f =
          rw (authenticated_ok, completions)
            (rw (resolved_there f, completions) (rw (← authenticated_state) (unrouted_error e f)))

      module _ {m : ModelBackend} (found : resolve_backend r d req counted ≡ ok m) where
        serve_refused :
            (allow_request m.config now.asked m.breaker).0 ≡ false
            → ((serve_with r d now req p m counted).0 ≡ err (http 503 true))
              × ((serve_with r d now req p m counted).1.store ≡ rate.1)
              × ((serve_with r d now req p m counted).1.circuit_breakers
                  ≡ insert m.model_id
                      (m.config, (allow_request m.config now.asked m.breaker).1)
                      s.circuit_breakers)
        unfolding serve_with generate guard on_exception http_exception_for
        serve_refused h = ground arith

        -- A request that the breaker of its model refuses gets status 503 with a Retry-After,
        -- whatever the model's client would do: no quota is charged, and only that breaker is
        -- updated, by the question alone.
        pub completions_breaker_open :
            (allow_request m.config now.asked m.breaker).0 ≡ false
            → ((completions r d now req key s).0 ≡ err (http 503 true))
              × ((completions r d now req key s).1.store ≡ rate.1)
              × ((completions r d now req key s).1.circuit_breakers
                  ≡ insert m.model_id
                      (m.config, (allow_request m.config now.asked m.breaker).1)
                      s.circuit_breakers)
        completions_breaker_open h = rw (completions_routed found) (serve_refused h)

        -- The breaker after a failed call: where there are metrics, its state is read once more.
        abbrev pub after_failure : CircuitBreaker
        after_failure =
            let b =
              record_failure m.config now.failed (allow_request m.config now.asked m.breaker).1 in
            elim s.metrics [ none ↦ b | some es ↦ (state m.config now.told b).1 ]

        serve_failed :
            (allow_request m.config now.asked m.breaker).0 ≡ true
            → m.client req ≡ err other_error
            → ((serve_with r d now req p m counted).0 ≡ err (http 502 false))
              × ((serve_with r d now req p m counted).1.store ≡ rate.1)
              × ((serve_with r d now req p m counted).1.circuit_breakers
                  ≡ insert m.model_id (m.config, after_failure) s.circuit_breakers)
        unfolding serve_with generate guard on_exception
        serve_failed h c = ground arith

        -- When the model call raises, the request gets status 502, the failure is recorded in the
        -- model's breaker, and no quota is charged.
        pub completions_upstream_failure :
            (allow_request m.config now.asked m.breaker).0 ≡ true
            → m.client req ≡ err other_error
            → ((completions r d now req key s).0 ≡ err (http 502 false))
              × ((completions r d now req key s).1.store ≡ rate.1)
              × ((completions r d now req key s).1.circuit_breakers
                  ≡ insert m.model_id (m.config, after_failure) s.circuit_breakers)
        completions_upstream_failure h c = rw (completions_routed found) (serve_failed h c)
