-- ===== src/Gateway/App/Handler.antt =====
-- The handler `completions` and the helpers that it calls.
use model_hub.Prelude.{
  ℕ, Bool, true, false, Option, none, some, [], ◌∷◌, ◌++◌, String, Result, ok, err, if◌then◌else◌,
}
use model_hub.Prelude.Dict.{lookup, insert}
use model_hub.Prelude.Int.{ℤ, pos, ◌+ℤ◌, is_not_positive}
use model_hub.Common.Errors.{
  ModelHubError, ErrorClass, ErrorCode, Exception, hub_error, http_error, assertion_error,
  ContextValue, text,
}
use model_hub.Gateway.Redis.{Redis}
use model_hub.Gateway.Auth.{Principal, authenticate}
use model_hub.Gateway.RateLimit.{enforce_rate_limit, RateLimitDecision}
use model_hub.Gateway.Quota.{enforce_quota, QuotaStatus}
use model_hub.Gateway.Billing.{compute_request_cost, total_cost_usd}
use model_hub.Gateway.Routing.{route_by_schema_length}
use model_hub.Gateway.Breaker.{CircuitBreaker, guard, record_success, record_failure, state}
use model_hub.Gateway.App.Types.{
  CompletionRequest, GenerationResult, CompletionResponse, MetricEvent, GatewayDeps, GatewayState,
  Readings, ModelBackend, request_recorded, code_outcome, upstream_failure, success,
  rate_limit_denied, quota_denied, breaker_state,
}

-- `_ERROR_CODE_STATUS`
unfoldable pub error_code_status : ErrorCode → Option ℕ
error_code_status ErrorCode.auth_invalid_api_key = some 401
error_code_status ErrorCode.rate_limit_exceeded = some 429
error_code_status ErrorCode.circuit_breaker_open = some 503
error_code_status ErrorCode.quota_exceeded = some 429
error_code_status _ = none

abbrev pub http : ℕ → Bool → Exception
http code retryable =
    http_error (record { status_code = code; retry_after = if retryable then 5 ∷ [] else [] })

unfoldable pub http_exception_for : ModelHubError → Exception
unfolding error_code_status
http_exception_for e = elim (error_code_status e.code) [
  | none ↦ assertion_error
  | some code ↦ http code e.retryable
]

abbrev pub is_gateway_error : ErrorClass → Bool
is_gateway_error ErrorClass.gateway_error = true
is_gateway_error _ = false

-- `x or 0`
abbrev pub or_zero : Option ℤ → ℤ
or_zero none = pos 0
or_zero (some n) = n

-- `max(n, 1)`
abbrev pub max_one : ℤ → ℤ
max_one n = if is_not_positive n then pos 1 else n

module _ (r : Redis) where
  -- `if d.metrics is not None: ...`
  tell : MetricEvent → GatewayState r → GatewayState r
  tell e s = record s { metrics = elim s.metrics [ none ↦ none | some es ↦ some (es ++ (e ∷ [])) ] }

  -- `e.context.get("principal_key", "unknown")`
  principal_label : Option ContextValue → ContextValue
  principal_label (some v) = v
  principal_label none = text "unknown"

  limit_step :
      Principal
      → GatewayState r
      → Result ModelHubError RateLimitDecision × r.State
      → Result Exception Principal × GatewayState r
  unfolding tell principal_label
  limit_step principal s (ok decision, store) = (ok principal, record s { store = store })
  limit_step principal s (err e, store) = (
    err (hub_error e),
    tell (rate_limit_denied (principal_label (lookup "principal_key" e.context)))
        (record s { store = store }),
  )

  unfoldable pub authenticate_and_rate_limit :
      GatewayDeps → String → GatewayState r → Result Exception Principal × GatewayState r
  unfolding limit_step
  authenticate_and_rate_limit d x_api_key s =
      elim (authenticate d.hash_api_key x_api_key d.auth_config) [
        | err e ↦ (err (hub_error e), s)
        | ok principal ↦
            limit_step principal s
              (enforce_rate_limit r principal.tenant_id d.rate_limit_config s.store)
      ]

  unfoldable pub resolve_backend :
      GatewayDeps → CompletionRequest → GatewayState r → Result Exception ModelBackend
  resolve_backend d req s =
      let model_id = route_by_schema_length req.schema_text d.routing_config in
      elim (lookup model_id d.model_clients) [
        | none ↦ err (http 500 false)
        | some client ↦ elim (lookup model_id s.circuit_breakers) [
          | none ↦ err (http 500 false)
          | some (config, breaker) ↦
              ok (record {
                model_id = model_id;
                client = client;
                config = config;
                breaker = breaker;
              })
        ]
      ]

  set_breaker : ModelBackend → CircuitBreaker → GatewayState r → GatewayState r
  set_breaker m b s = record s {
    circuit_breakers = insert m.model_id (m.config, b) s.circuit_breakers;
  }

  -- `set_circuit_breaker_state(model_id, breaker.state)`, whose reading of the state may move the
  -- breaker, and is made only where there are metrics.
  unfoldable pub tell_breaker : ModelBackend → ℕ → CircuitBreaker → GatewayState r → GatewayState r
  unfolding set_breaker
  tell_breaker m told b s = elim s.metrics [
    | none ↦ set_breaker m b s
    | some es ↦
        let (current, b') = state m.config told b in
        record (set_breaker m b' s) {
          metrics = some (es ++ (breaker_state m.model_id current ∷ []));
        }
  ]

  call_client :
      Readings
      → ModelBackend
      → Result Exception GenerationResult
      → CircuitBreaker
      → GatewayState r
      → Result Exception GenerationResult × GatewayState r
  unfolding tell_breaker
  call_client now m (ok result) b s = (ok result, tell_breaker m now.told (record_success b) s)
  call_client now m (err e) b s =
      (err e, tell_breaker m now.told (record_failure m.config now.failed b) s)

  unfoldable pub generate :
      Readings
      → ModelBackend
      → CompletionRequest
      → GatewayState r
      → Result Exception GenerationResult × GatewayState r
  unfolding call_client set_breaker tell_breaker
  generate now m req s =
      let (answer, b) = guard m.config now.asked m.breaker in
      elim answer [
        | err e ↦ (err (hub_error e), set_breaker m b s)
        | ok _ ↦ call_client now m (m.client req) b s
      ]

  quota_step :
      Principal
      → GatewayState r
      → Result Exception QuotaStatus × r.State
      → Result Exception (Unit {0}) × GatewayState r
  unfolding tell
  quota_step principal s (ok status, store) = (ok tt, record s { store = store })
  quota_step principal s (err (hub_error e), store) =
      let s' = record s { store = store } in
      (
        err (hub_error e),
        if is_gateway_error e.error_class then tell (quota_denied principal.tenant_id) s' else s',
      )
  quota_step principal s (err e, store) = (err e, record s { store = store })

  -- `_enforce_quota`
  unfoldable pub enforce_tenant_quota :
      GatewayDeps
      → Readings
      → Principal
      → ℤ
      → GatewayState r
      → Result Exception (Unit {0}) × GatewayState r
  unfolding quota_step
  enforce_tenant_quota d now principal tokens_used s = quota_step principal s (
      enforce_quota r now.today principal.tenant_id principal.tier tokens_used d.quota_config
        s.store)

  -- The `except` clauses of the handler.
  unfoldable pub on_exception :
      String → Exception → GatewayState r → Result Exception CompletionResponse × GatewayState r
  unfolding tell
  on_exception model_id (hub_error e) s =
      if is_gateway_error e.error_class
      then (err (http_exception_for e), tell (request_recorded model_id (code_outcome e.code)) s)
      else (err (http 502 false), tell (request_recorded model_id upstream_failure) s)
  on_exception model_id (http_error e) s = (err (http_error e), s)
  on_exception model_id other s =
      (err (http 502 false), tell (request_recorded model_id upstream_failure) s)

  -- What follows the `try`: an exception of the billing is not caught.
  unfoldable pub bill :
      GatewayDeps
      → String
      → GenerationResult
      → GatewayState r
      → Result Exception CompletionResponse × GatewayState r
  unfolding tell
  bill d model_id result s =
      elim (compute_request_cost model_id (or_zero result.prompt_tokens)
        (or_zero result.completion_tokens) d.billing_config) [
          | err e ↦ (err e, s)
          | ok cost ↦ (
            ok (record {
              model_id = model_id;
              text = result.text;
              finish_reason = result.finish_reason;
              prompt_tokens = result.prompt_tokens;
              completion_tokens = result.completion_tokens;
              cost_usd = total_cost_usd cost;
            }),
            tell (request_recorded model_id success) s,
          )
        ]

  -- From the generated answer on.
  unfoldable pub settle :
      GatewayDeps
      → Readings
      → Principal
      → String
      → GenerationResult
      → GatewayState r
      → Result Exception CompletionResponse × GatewayState r
  unfolding bill on_exception
  settle d now principal model_id result s =
      let tokens_used =
        max_one (or_zero result.prompt_tokens +ℤ or_zero result.completion_tokens) in
      let (within, s') = enforce_tenant_quota d now principal tokens_used s in
      elim within [ err e ↦ on_exception model_id e s' | ok _ ↦ bill d model_id result s' ]

  -- From the resolved backend on.
  unfoldable pub serve_with :
      GatewayDeps
      → Readings
      → CompletionRequest
      → Principal
      → ModelBackend
      → GatewayState r
      → Result Exception CompletionResponse × GatewayState r
  unfolding settle on_exception
  serve_with d now req principal m s =
      let (generated, s') = generate now m req s in
      elim generated [
        | err e ↦ on_exception m.model_id e s'
        | ok result ↦ settle d now principal m.model_id result s'
      ]

  unfoldable pub completions :
      GatewayDeps
      → Readings
      → CompletionRequest
      → String
      → GatewayState r
      → Result Exception CompletionResponse × GatewayState r
  unfolding serve_with on_exception
  completions d now req x_api_key s =
      let (authenticated, s') = authenticate_and_rate_limit d x_api_key s in
      elim authenticated [
        | err e ↦ on_exception "unknown" e s'
        | ok principal ↦ elim (resolve_backend d req s') [
          | err e ↦ on_exception "unknown" e s'
          | ok m ↦ serve_with d now req principal m s'
        ]
      ]
