-- ===== src/Gateway/App/Errors.antt =====
-- Which HTTP statuses the handler can answer with, and whose breaker a request may move.
use model_hub.Prelude.{
  ℕ, ◌≡◌, ◌⊎◌, inl, inr, ap, false, some, String, Result, ok, err, arith, Result-cases,
}
use mathlib.Core.Path.{subst}
use model_hub.Prelude.Dict.{lookup}
use model_hub.Prelude.Int.{ℤ, ◌+ℤ◌}
use model_hub.Common.Errors.{
  ErrorCode, Exception, hub_error, http_error, value_error, assertion_error, other_error,
}
use model_hub.Gateway.Redis.{Redis}
use model_hub.Gateway.Auth.{Principal, authenticate, authenticate-err}
use model_hub.Gateway.RateLimit.{enforce_rate_limit}
use model_hub.Gateway.Quota.{enforce_quota}
use model_hub.Gateway.Breaker.{guard}
use model_hub.Gateway.Routing.{route_by_schema_length}
use model_hub.Gateway.Billing.{compute_request_cost, compute_request_cost-err}
use model_hub.Gateway.App.Types.{
  CompletionRequest, CompletionResponse, GenerationResult, GatewayDeps, GatewayState, Readings,
  ModelBackend, ModelClient,
}
use model_hub.Gateway.App.Handler.{
  is_gateway_error, authenticate_and_rate_limit, resolve_backend, generate, enforce_tenant_quota,
  on_exception, bill, settle, serve_with, completions, http_exception_for, or_zero, max_one,
}

-- The statuses that the gateway is meant to answer a failed request with.
abbrev pub IsKnownStatus : ℕ → Type 0
IsKnownStatus n = (n ≡ 401) ⊎ ((n ≡ 429) ⊎ ((n ≡ 500) ⊎ ((n ≡ 502) ⊎ (n ≡ 503))))

-- A response, an HTTP error with a known status, or a ValueError where `B` holds.
abbrev pub EndsWell : Type 0 → Result Exception CompletionResponse → Type 0
EndsWell B (ok response) = Unit
EndsWell B (err (http_error e)) = IsKnownStatus e.status_code
EndsWell B (err value_error) = B
EndsWell B (err _) = ⊥

EndsWell-mono :
    (B C : Type 0)
    → (B → C)
    → (r : Result Exception CompletionResponse) → EndsWell B r
    → EndsWell C r
EndsWell-mono B C f (ok response) h = tt
EndsWell-mono B C f (err (http_error e)) h = h
EndsWell-mono B C f (err value_error) h = f h
EndsWell-mono B C f (err (hub_error e)) h = elim h [ ]
EndsWell-mono B C f (err assertion_error) h = elim h [ ]
EndsWell-mono B C f (err other_error) h = elim h [ ]

-- The model that the request is routed to answers it, and the billing of the answer is a ValueError.
abbrev pub BillingRaises : GatewayDeps → CompletionRequest → Type 0
BillingRaises d req =
    let model_id = route_by_schema_length req.schema_text d.routing_config in
    (client : ModelClient) × (g : GenerationResult) × (lookup model_id d.model_clients
      ≡ some client)
    × (client req ≡ ok g)
    × (compute_request_cost model_id (or_zero g.prompt_tokens) (or_zero g.completion_tokens)
          d.billing_config
        ≡ err value_error)

-- A response, an HTTP error with a known status, or the ValueError of the billing.
abbrev pub IsHandled :
    GatewayDeps → CompletionRequest → Result Exception CompletionResponse → Type 0
IsHandled d req r = EndsWell (BillingRaises d req) r

-- An error that the handler can map: a gateway error with one of the mapped codes, an HTTP error
-- with status 500, and whatever is neither.
abbrev pub IsMappable : Exception → Type 0
IsMappable (hub_error e) =
    (is_gateway_error e.error_class ≡ false)
    ⊎ ((e.code ≡ ErrorCode.auth_invalid_api_key)
        ⊎ ((e.code ≡ ErrorCode.rate_limit_exceeded)
            ⊎ ((e.code ≡ ErrorCode.circuit_breaker_open) ⊎ (e.code ≡ ErrorCode.quota_exceeded))))
IsMappable (http_error e) = e.status_code ≡ 500
IsMappable _ = Unit

module _ (r : Redis) where
  on_exception-EndsWell :
      (B : Type 0) (model_id : String) (e : Exception) (s : GatewayState r)
      → IsMappable e
      → EndsWell B (on_exception r model_id e s).0
  unfolding on_exception http_exception_for
  on_exception-EndsWell B model_id (hub_error e) s h = ground arith
  on_exception-EndsWell B model_id (http_error e) s h = ground arith
  on_exception-EndsWell B model_id _ s h = ground arith

  -- Every error among the outcomes can be mapped.
  abbrev pub MapsErrors {ℓ} : {A : Type ℓ} → Result Exception A → Type 0
  MapsErrors (ok a) = Unit
  MapsErrors (err e) = IsMappable e

  authenticate_maps :
      (d : GatewayDeps) (key : String) (s : GatewayState r)
      → MapsErrors (authenticate_and_rate_limit r d key s).0
  unfolding authenticate_and_rate_limit enforce_rate_limit
  authenticate_maps d key s = elim (Result-cases (authenticate d.hash_api_key key d.auth_config)) [
    | inl (principal, e) ↦ ground arith
    | inr (x, e) ↦ ground (arith, authenticate-err d.hash_api_key key d.auth_config e)
  ]

  resolve_maps :
      (d : GatewayDeps) (req : CompletionRequest) (s : GatewayState r)
      → MapsErrors (resolve_backend r d req s)
  unfolding resolve_backend
  resolve_maps d req s = ground arith

  generate_maps :
      (now : Readings) (m : ModelBackend) (req : CompletionRequest) (s : GatewayState r)
      → MapsErrors (m.client req)
      → MapsErrors (generate r now m req s).0
  unfolding generate guard
  generate_maps now m req s h = ground arith

  quota_maps :
      (d : GatewayDeps) (now : Readings) (p : Principal) (n : ℤ) (s : GatewayState r)
      → MapsErrors (enforce_tenant_quota r d now p n s).0
  unfolding enforce_tenant_quota enforce_quota
  quota_maps d now p n s = ground arith

  bill-EndsWell :
      (d : GatewayDeps) (model_id : String) (g : GenerationResult) (s : GatewayState r)
      → EndsWell
          (compute_request_cost model_id
              (or_zero g.prompt_tokens)
              (or_zero g.completion_tokens)
              d.billing_config
            ≡ err value_error)
          (bill r d model_id g s).0
  unfolding bill
  bill-EndsWell d model_id g s =
      let cost =
        compute_request_cost model_id (or_zero g.prompt_tokens) (or_zero g.completion_tokens)
          d.billing_config in
      elim (Result-cases cost) [
        | inl (c, e) ↦ rw (e, bill) tt
        | inr (x, e) ↦
            let v =
              compute_request_cost-err model_id (or_zero g.prompt_tokens)
                (or_zero g.completion_tokens) d.billing_config e in
            rw (e, v, bill) (ap (λ y. err y) v)
      ]

  settle-EndsWell :
      (d : GatewayDeps) (now : Readings) (p : Principal) (model_id : String) (g : GenerationResult)
      (s : GatewayState r)
      → EndsWell
          (compute_request_cost model_id
              (or_zero g.prompt_tokens)
              (or_zero g.completion_tokens)
              d.billing_config
            ≡ err value_error)
          (settle r d now p model_id g s).0
  unfolding settle
  settle-EndsWell d now p model_id g s =
      let n = max_one (or_zero g.prompt_tokens +ℤ or_zero g.completion_tokens) in
      let (within, s') = enforce_tenant_quota r d now p n s in
      elim (Result-cases within) [
        | inl (u, e) ↦ rw (e, settle) (bill-EndsWell d model_id g s')
        | inr (x, e) ↦
            rw (e, settle)
              (on_exception-EndsWell _ model_id x s' (rw e at (quota_maps d now p n s)))
      ]

  generate_answers :
      (now : Readings) (m : ModelBackend) (req : CompletionRequest) (s : GatewayState r)
      (g : GenerationResult)
      → (generate r now m req s).0 ≡ ok g
      → m.client req ≡ ok g
  unfolding generate guard
  generate_answers now m req s g h = ground arith

  serve_with-IsHandled :
      (d : GatewayDeps) (now : Readings) (req : CompletionRequest) (p : Principal)
      (m : ModelBackend) (s : GatewayState r)
      → MapsErrors (m.client req)
      → m.model_id ≡ route_by_schema_length req.schema_text d.routing_config
      → lookup m.model_id d.model_clients ≡ some m.client
      → IsHandled d req (serve_with r d now req p m s).0
  unfolding serve_with
  serve_with-IsHandled d now req p m s h same there =
      let (generated, s') = generate r now m req s in
      elim (Result-cases generated) [
        | inl (g, e) ↦
            rw (e, serve_with)
              (EndsWell-mono _ (BillingRaises d req)
                (λ raised. (
                  m.client,
                  g,
                  subst (λ k. lookup k d.model_clients ≡ some m.client) same there,
                  generate_answers now m req s g e,
                  subst
                      (λ k.
                        compute_request_cost k (or_zero g.prompt_tokens)
                          (or_zero g.completion_tokens) d.billing_config
                        ≡ err value_error)
                      same raised,
                ))
                (settle r d now p m.model_id g s').0 (settle-EndsWell d now p m.model_id g s'))
        | inr (x, e) ↦
            rw (e, serve_with)
              (on_exception-EndsWell _ m.model_id x s' (rw e at (generate_maps now m req s h)))
      ]

  -- What the model clients may raise: any error but a gateway error or an HTTP error that the
  -- handler does not map.
  abbrev pub ClientsMapErrors : GatewayDeps → CompletionRequest → Type 0
  ClientsMapErrors d req =
      (k : String) (c : ModelClient) → lookup k d.model_clients ≡ some c → MapsErrors (c req)

  resolve_backend_lem :
      (d : GatewayDeps) (req : CompletionRequest) (s : GatewayState r) {m : ModelBackend}
      → resolve_backend r d req s ≡ ok m
      → (m.model_id ≡ route_by_schema_length req.schema_text d.routing_config)
        × (lookup m.model_id d.model_clients ≡ some m.client)
  unfolding resolve_backend
  resolve_backend_lem d req s h = (ground arith, ground arith)

  -- Where the model clients raise no gateway or HTTP error of their own that is unknown to the
  -- handler, every request ends in a response, in an HTTP error with status 401, 429, 500, 502 or
  -- 503, or in a ValueError that the billing of the model's answer raises: no other exception, and
  -- never the AssertionError for an unmapped code, escapes.
  pub completions-IsHandled :
      (d : GatewayDeps) (now : Readings) (req : CompletionRequest) (key : String)
      (s : GatewayState r)
      → ClientsMapErrors d req
      → IsHandled d req (completions r d now req key s).0
  unfolding completions
  completions-IsHandled d now req key s h =
      let (authenticated, s') = authenticate_and_rate_limit r d key s in
      elim (Result-cases authenticated) [
        | inl (p, e) ↦ elim (Result-cases (resolve_backend r d req s')) [
          | inl (m, f) ↦
              rw (e, completions)
                (rw (f, completions)
                  (let (same, there) = resolve_backend_lem d req s' f in
                    serve_with-IsHandled d now req p m s' (h m.model_id m.client there) same there))
          | inr (x, f) ↦
              rw (e, completions)
                (rw (f, completions)
                  (on_exception-EndsWell _ "unknown" x s' (rw f at (resolve_maps d req s'))))
        ]
        | inr (x, e) ↦
            rw (e, completions)
              (on_exception-EndsWell _ "unknown" x s' (rw e at (authenticate_maps d key s)))
      ]
