-- ===== src/Gateway/App/Served.antt =====
-- What a request that is answered has passed: every guard of the handler, in order.
use model_hub.Prelude.{◌≡◌, inl, inr, true, some, String, ok, arith, Result-cases, ◌∙◌, ap, sym}
use model_hub.Prelude.Dict.{lookup}
use model_hub.Prelude.Int.{ℤ, ◌+ℤ◌}
use model_hub.Common.Errors.{Exception, hub_error}
use model_hub.Gateway.Redis.{Redis}
use model_hub.Gateway.Auth.{Principal, authenticate}
use model_hub.Gateway.RateLimit.{check_rate_limit, enforce_rate_limit}
use model_hub.Gateway.Quota.{QuotaStatus, enforce_quota}
use model_hub.Gateway.Billing.{RequestCost, compute_request_cost, total_cost_usd}
use model_hub.Gateway.Breaker.{allow_request, guard}
use model_hub.Gateway.Routing.{route_by_schema_length}
use model_hub.Gateway.App.Types.{
  CompletionRequest, CompletionResponse, GenerationResult, GatewayDeps, GatewayState, Readings,
  ModelBackend,
}
use model_hub.Gateway.App.Handler.{
  authenticate_and_rate_limit, resolve_backend, generate, enforce_tenant_quota, on_exception, bill,
  settle, serve_with, completions, or_zero, max_one,
}

module _ (r : Redis) (d : GatewayDeps) (now : Readings) (req : CompletionRequest)
    (key : String) where
  -- The tokens that the quota is charged.
  abbrev pub charged : GenerationResult → ℤ
  charged g = max_one (or_zero g.prompt_tokens +ℤ or_zero g.completion_tokens)

  pub record IsServed (s : GatewayState r) (response : CompletionResponse) : Type 0 where
    pub principal : Principal
    pub backend : ModelBackend
    pub result : GenerationResult
    pub cost : RequestCost
    pub authenticated : authenticate d.hash_api_key key d.auth_config ≡ ok principal
    pub within_rate :
        (check_rate_limit r principal.tenant_id d.rate_limit_config s.store).0.allowed ≡ true
    pub routed : backend.model_id ≡ route_by_schema_length req.schema_text d.routing_config
    pub has_client : lookup backend.model_id d.model_clients ≡ some backend.client
    pub has_breaker :
        lookup backend.model_id s.circuit_breakers ≡ some (backend.config, backend.breaker)
    pub let_through : (allow_request backend.config now.asked backend.breaker).0 ≡ true
    pub generated : backend.client req ≡ ok result
    pub within_quota :
        (status : QuotaStatus) × ((enforce_quota r now.today principal.tenant_id principal.tier
            (charged result)
            d.quota_config
            (check_rate_limit r principal.tenant_id d.rate_limit_config s.store).1).0
          ≡ ok status)
    pub billed :
        compute_request_cost backend.model_id
          (or_zero result.prompt_tokens)
          (or_zero result.completion_tokens)
          d.billing_config
        ≡ ok cost
    pub answered : response ≡ record {
      model_id = backend.model_id;
      text = result.text;
      finish_reason = result.finish_reason;
      prompt_tokens = result.prompt_tokens;
      completion_tokens = result.completion_tokens;
      cost_usd = total_cost_usd cost;
    }

  on_exception-not_ok :
      (model_id : String) (e : Exception) (s : GatewayState r) {response : CompletionResponse}
      → (on_exception r model_id e s).0 ≡ ok response
      → ⊥
  unfolding on_exception
  on_exception-not_ok model_id (hub_error e) s h = ground arith
  on_exception-not_ok model_id _ s h = ground arith

  authenticated_ok :
      (s : GatewayState r) {p : Principal}
      → (authenticate_and_rate_limit r d key s).0 ≡ ok p
      → (authenticate d.hash_api_key key d.auth_config ≡ ok p)
        × ((check_rate_limit r p.tenant_id d.rate_limit_config s.store).0.allowed ≡ true)
        × ((authenticate_and_rate_limit r d key s).1
            ≡ record s { store = (check_rate_limit r p.tenant_id d.rate_limit_config s.store).1 })
  unfolding authenticate_and_rate_limit enforce_rate_limit
  authenticated_ok s h = ground arith

  resolve_ok :
      (s : GatewayState r) {m : ModelBackend}
      → resolve_backend r d req s ≡ ok m
      → (m.model_id ≡ route_by_schema_length req.schema_text d.routing_config)
        × (lookup m.model_id d.model_clients ≡ some m.client)
        × (lookup m.model_id s.circuit_breakers ≡ some (m.config, m.breaker))
  unfolding resolve_backend
  resolve_ok s h = ground arith

  generate_ok :
      (m : ModelBackend) (s : GatewayState r) {g : GenerationResult}
      → (generate r now m req s).0 ≡ ok g
      → ((allow_request m.config now.asked m.breaker).0 ≡ true)
        × (m.client req ≡ ok g)
        × ((generate r now m req s).1.store ≡ s.store)
  unfolding generate guard
  generate_ok m s h = ground arith

  quota_ok :
      (p : Principal) (n : ℤ) (s : GatewayState r) {u : Unit {0}}
      → (enforce_tenant_quota r d now p n s).0 ≡ ok u
      → (status : QuotaStatus) × ((enforce_quota r now.today p.tenant_id p.tier n d.quota_config
            s.store).0
          ≡ ok status)
  unfolding enforce_tenant_quota
  quota_ok p n s h =
      elim (Result-cases
        (enforce_quota r now.today p.tenant_id p.tier n d.quota_config s.store).0) [
          | inl (status, e) ↦ (status, e)
          | inr (x, e) ↦ absurd (ground arith)
        ]

  bill_ok :
      (model_id : String) (g : GenerationResult) (s : GatewayState r)
      {response : CompletionResponse}
      → (bill r d model_id g s).0 ≡ ok response
      → (cost : RequestCost) × (compute_request_cost model_id
            (or_zero g.prompt_tokens)
            (or_zero g.completion_tokens)
            d.billing_config
          ≡ ok cost)
        × (response ≡ record {
          model_id = model_id;
          text = g.text;
          finish_reason = g.finish_reason;
          prompt_tokens = g.prompt_tokens;
          completion_tokens = g.completion_tokens;
          cost_usd = total_cost_usd cost;
        })
  unfolding bill
  bill_ok model_id g s h =
      elim (Result-cases (
        compute_request_cost model_id (or_zero g.prompt_tokens) (or_zero g.completion_tokens)
          d.billing_config)) [
            | inl (cost, e) ↦ (cost, e, ground arith)
            | inr (x, e) ↦ absurd (ground arith)
          ]

  settle_ok :
      (p : Principal) (model_id : String) (g : GenerationResult) (s : GatewayState r)
      {response : CompletionResponse}
      → (settle r d now p model_id g s).0 ≡ ok response
      → ((enforce_tenant_quota r d now p (charged g) s).0 ≡ ok tt)
        × ((bill r d model_id g (enforce_tenant_quota r d now p (charged g) s).1).0 ≡ ok response)
  unfolding settle
  settle_ok p model_id g s h =
      elim (Result-cases (enforce_tenant_quota r d now p (charged g) s).0) [
        | inl (u, e) ↦ (e, rw (e, settle) at h)
        | inr (x, e) ↦ absurd (
            on_exception-not_ok model_id x (enforce_tenant_quota r d now p (charged g) s).1
              (rw (e, settle) at h))
      ]

  serve_with_ok :
      (p : Principal) (m : ModelBackend) (s : GatewayState r) {response : CompletionResponse}
      → (serve_with r d now req p m s).0 ≡ ok response
      → (g : GenerationResult) × ((generate r now m req s).0 ≡ ok g)
        × ((settle r d now p m.model_id g (generate r now m req s).1).0 ≡ ok response)
  unfolding serve_with
  serve_with_ok p m s h = elim (Result-cases (generate r now m req s).0) [
    | inl (g, e) ↦ (g, e, rw (e, serve_with) at h)
    | inr (x, e) ↦
        absurd
          (on_exception-not_ok m.model_id x (generate r now m req s).1 (rw (e, serve_with) at h))
  ]

  completions_ok :
      (s : GatewayState r) {response : CompletionResponse}
      → (completions r d now req key s).0 ≡ ok response
      → let s' = (authenticate_and_rate_limit r d key s).1 in
        (p : Principal) × (m : ModelBackend) × ((authenticate_and_rate_limit r d key s).0 ≡ ok p)
        × (resolve_backend r d req s' ≡ ok m)
        × ((serve_with r d now req p m s').0 ≡ ok response)
  unfolding completions
  completions_ok s h =
      let (a, s') = authenticate_and_rate_limit r d key s in
      elim (Result-cases a) [
        | inl (p, e) ↦ elim (Result-cases (resolve_backend r d req s')) [
          | inl (m, f) ↦ (p, m, e, f, rw (f, completions) at (rw (e, completions) at h))
          | inr (x, f) ↦ absurd (
              on_exception-not_ok "unknown" x s'
                (rw (f, completions) at (rw (e, completions) at h)))
        ]
        | inr (x, e) ↦ absurd (on_exception-not_ok "unknown" x s' (rw (e, completions) at h))
      ]

  -- A request that is answered was authenticated and within its tenant's rate; the answer comes
  -- from the client of the model that its schema's length routes to, called when that model's
  -- breaker let the request through; its tokens (one at least) were charged to the tenant after
  -- the rate counter, and stayed within the quota; and the cost is that of the billing.
  pub completions-IsServed :
      (s : GatewayState r) (response : CompletionResponse)
      → (completions r d now req key s).0 ≡ ok response
      → IsServed s response
  completions-IsServed s response h =
      let (p, m, auth, found, served) = completions_ok s h in
      let (known, rate, left) = authenticated_ok s auth in
      let s' = (authenticate_and_rate_limit r d key s).1 in
      let (routed, client, breaker) = resolve_ok s' found in
      let (g, gen, settled) = serve_with_ok p m s' served in
      let (through, answer, kept) = generate_ok m s' gen in
      let (quota, bills) = settle_ok p m.model_id g (generate r now m req s').1 settled in
      let (status, within) = quota_ok p (charged g) (generate r now m req s').1 quota in
      let (cost, billed, same) =
        bill_ok m.model_id g
          (enforce_tenant_quota r d now p (charged g) (generate r now m req s').1).1 bills in
      record {
        principal = p;
        backend = m;
        result = g;
        cost = cost;
        authenticated = known;
        within_rate = rate;
        routed = routed;
        has_client = client;
        has_breaker =
            sym (ap (λ (t : GatewayState r). lookup m.model_id t.circuit_breakers) left) ∙ breaker;
        let_through = through;
        generated = answer;
        within_quota = (status, rw (kept ∙ ap (λ (t : GatewayState r). t.store) left) at within);
        billed = billed;
        answered = same;
      }
