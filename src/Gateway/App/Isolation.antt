-- ===== src/Gateway/App/Isolation.antt =====
-- A request moves no breaker but that of the model it is routed to.
use model_hub.Prelude.{
  ◌≡◌, refl, inl, inr, false, String, ok, arith, Result-cases, Option-cases, ◌∙◌, str_eq,
}
use model_hub.Prelude.Dict.{Dict, lookup, insert, lookup-insert}
use model_hub.Prelude.Int.{ℤ, ◌+ℤ◌}
use model_hub.Common.Errors.{Exception, hub_error}
use model_hub.Gateway.Redis.{Redis}
use model_hub.Gateway.Auth.{Principal}
use model_hub.Gateway.Breaker.{CircuitBreaker, CircuitBreakerConfig, guard}
use model_hub.Gateway.Routing.{route_by_schema_length}
use model_hub.Gateway.App.Types.{
  CompletionRequest, GenerationResult, GatewayDeps, GatewayState, Readings, ModelBackend,
}
use model_hub.Gateway.App.Handler.{
  authenticate_and_rate_limit, resolve_backend, generate, enforce_tenant_quota, on_exception, bill,
  settle, serve_with, completions, or_zero, max_one, tell_breaker,
}

module _ (r : Redis) (d : GatewayDeps) (now : Readings) (req : CompletionRequest) (key : String)
    (j : String) where
  -- The entry of the model `j`.
  abbrev Same : GatewayState r → GatewayState r → Type 0
  Same s t = lookup j t.circuit_breakers ≡ lookup j s.circuit_breakers

  authenticate-Same : (s : GatewayState r) → Same s (authenticate_and_rate_limit r d key s).1
  unfolding authenticate_and_rate_limit
  authenticate-Same s = ground arith

  exception-Same :
      (model_id : String) (e : Exception) (s : GatewayState r)
      → Same s (on_exception r model_id e s).1
  unfolding on_exception
  exception-Same model_id (hub_error e) s = ground arith
  exception-Same model_id _ s = refl

  bill-Same :
      (model_id : String) (g : GenerationResult) (s : GatewayState r)
      → Same s (bill r d model_id g s).1
  unfolding bill
  bill-Same model_id g s = ground arith

  quota-Same :
      (p : Principal) (n : ℤ) (s : GatewayState r) → Same s (enforce_tenant_quota r d now p n s).1
  unfolding enforce_tenant_quota
  quota-Same p n s = ground arith

  insert_same :
      (k : String) (v : CircuitBreakerConfig × CircuitBreaker)
      (e : Dict (CircuitBreakerConfig × CircuitBreaker))
      → str_eq j k ≡ false
      → lookup j (insert k v e) ≡ lookup j e
  insert_same k v e ne = rw (lookup-insert j k v e, ne) refl

  told-Same :
      (m : ModelBackend) (b : CircuitBreaker) (s : GatewayState r)
      → str_eq j m.model_id ≡ false
      → Same s (tell_breaker r m now.told b s)
  unfolding tell_breaker
  told-Same m b s ne = elim (Option-cases s.metrics) [
    | inl q ↦ rw (q, tell_breaker) (insert_same m.model_id _ s.circuit_breakers ne)
    | inr (es, q) ↦ rw (q, tell_breaker) (insert_same m.model_id _ s.circuit_breakers ne)
  ]

  generate-Same :
      (m : ModelBackend) (s : GatewayState r)
      → str_eq j m.model_id ≡ false
      → Same s (generate r now m req s).1
  unfolding generate
  generate-Same m s ne = elim (Result-cases (guard m.config now.asked m.breaker).0) [
    | inr (x, e) ↦ rw (e, generate) (insert_same m.model_id _ s.circuit_breakers ne)
    | inl (u, e) ↦ elim (Result-cases (m.client req)) [
      | inl (g, f) ↦ rw (e, generate) (rw (f, generate) (told-Same m _ s ne))
      | inr (x, f) ↦ rw (e, generate) (rw (f, generate) (told-Same m _ s ne))
    ]
  ]

  settle-Same :
      (p : Principal) (model_id : String) (g : GenerationResult) (s : GatewayState r)
      → Same s (settle r d now p model_id g s).1
  unfolding settle
  settle-Same p model_id g s =
      let n = max_one (or_zero g.prompt_tokens +ℤ or_zero g.completion_tokens) in
      let (within, s') = enforce_tenant_quota r d now p n s in
      elim (Result-cases within) [
        | inl (u, e) ↦ rw (e, settle) (bill-Same model_id g s' ∙ quota-Same p n s)
        | inr (x, e) ↦ rw (e, settle) (exception-Same model_id x s' ∙ quota-Same p n s)
      ]

  serve_with-Same :
      (p : Principal) (m : ModelBackend) (s : GatewayState r)
      → str_eq j m.model_id ≡ false
      → Same s (serve_with r d now req p m s).1
  unfolding serve_with
  serve_with-Same p m s ne =
      let (generated, s') = generate r now m req s in
      elim (Result-cases generated) [
        | inl (g, e) ↦ rw (e, serve_with) (settle-Same p m.model_id g s' ∙ generate-Same m s ne)
        | inr (x, e) ↦ rw (e, serve_with) (exception-Same m.model_id x s' ∙ generate-Same m s ne)
      ]

  resolve_id :
      (s : GatewayState r) {m : ModelBackend}
      → resolve_backend r d req s ≡ ok m
      → m.model_id ≡ route_by_schema_length req.schema_text d.routing_config
  unfolding resolve_backend
  resolve_id s h = ground arith

  -- The breaker of a model that the request is not routed to stays as it is, however the request
  -- ends.
  pub completions_other_breakers :
      (s : GatewayState r)
      → str_eq j (route_by_schema_length req.schema_text d.routing_config) ≡ false
      → lookup j (completions r d now req key s).1.circuit_breakers ≡ lookup j s.circuit_breakers
  unfolding completions
  completions_other_breakers s ne =
      let (a, s') = authenticate_and_rate_limit r d key s in
      elim (Result-cases a) [
        | inl (p, e) ↦ elim (Result-cases (resolve_backend r d req s')) [
          | inl (m, f) ↦
              rw (e, completions)
                (rw (f, completions)
                  (serve_with-Same p m s' (rw (resolve_id s' f) ne) ∙ authenticate-Same s))
          | inr (x, f) ↦
              rw (e, completions)
                (rw (f, completions) (exception-Same "unknown" x s' ∙ authenticate-Same s))
        ]
        | inr (x, e) ↦ rw (e, completions) (exception-Same "unknown" x s' ∙ authenticate-Same s)
      ]
