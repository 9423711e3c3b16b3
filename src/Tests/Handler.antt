-- ===== src/Tests/Handler.antt =====
-- The gateway's handler, with two models of which one answers and one fails.
use model_hub.Prelude.{
  ◌≡◌, refl, true, false, none, some, [], ◌∷◌, String, ok, err, str_eq, Bool-cases, inl, inr,
}
use mathlib.Core.Path.{subst}
use mathlib.Core.Option.{some-injective}
use model_hub.Prelude.Int.{pos, ◌+ℤ◌}
use model_hub.Prelude.Ratio.{Ratio}
use model_hub.Common.Errors.{other_error}
use model_hub.Gateway.Auth.{Principal, authenticate, auth_error}
use model_hub.Gateway.RateLimit.{check_rate_limit, enforce_rate_limit}
use model_hub.Gateway.Quota.{enforce_quota}
use model_hub.Gateway.Billing.{compute_request_cost, total_cost_usd}
use model_hub.Gateway.Routing.{measured, route_by_schema_length}
use model_hub.Gateway.Breaker.{
  CircuitState, CircuitBreakerConfig, CircuitBreaker, guard, record_success,
}
use model_hub.Gateway.App.Types.{
  CompletionRequest, GenerationResult, CompletionResponse, ModelClient, GatewayDeps, GatewayState,
  Readings, ModelBackend,
}
use model_hub.Gateway.App.Handler.{
  completions, resolve_backend, authenticate_and_rate_limit, serve_with, generate, settle,
  enforce_tenant_quota, bill, tell_breaker,
}
use model_hub.Gateway.App.Served.{IsServed, completions-IsServed}
use model_hub.Gateway.App.Refused.{rate}
use model_hub.Gateway.App.Errors.{IsHandled, ClientsMapErrors, MapsErrors, completions-IsHandled}
use model_hub.Tests.RedisServer.{no_counters, memory_server}

abbrev generated : GenerationResult
generated = record {
  text = "select 1";
  finish_reason = "stop";
  model_id = "small";
  prompt_tokens = some (pos 20);
  completion_tokens = some (pos 5);
}

abbrev answers : ModelClient
answers req = ok generated

abbrev fails : ModelClient
fails req = err other_error

abbrev cent : Ratio
cent = record { num = 1; den = 100 }

abbrev deps : GatewayDeps
deps = record {
  hash_api_key = λ k. k;
  auth_config = record {
    principals_by_key_hash = ("k1", record { tenant_id = "acme"; tier = "free" }) ∷ [];
  };
  rate_limit_config = record { requests_per_window = 2; window_seconds = 60 };
  quota_config = record { daily_token_quota_by_tier = ("free", 100) ∷ [] };
  billing_config = record {
    price_per_1k_prompt_tokens_usd = ("small", cent) ∷ [];
    price_per_1k_completion_tokens_usd = ("small", cent) ∷ [];
  };
  routing_config = record {
    schema_token_threshold = 2;
    threshold_source = measured;
    short_schema_model_id = "small";
    long_schema_model_id = "large";
  };
  model_clients = ("small", answers) ∷ ("large", fails) ∷ [];
}

abbrev acme : Principal
acme = record { tenant_id = "acme"; tier = "free" }

abbrev breaker_config : CircuitBreakerConfig
breaker_config = record { failure_threshold = 2; failure_window = 10; cooldown = 30 }

abbrev closed_breaker : CircuitBreaker
closed_breaker = record {
  state = CircuitState.closed;
  failure_timestamps = [];
  opened_at = none;
  half_open_trial_claimed = false;
}

abbrev with_large : CircuitBreaker → GatewayState memory_server
with_large large = record {
  store = no_counters;
  circuit_breakers =
      ("small", (breaker_config, closed_breaker)) ∷ ("large", (breaker_config, large)) ∷ [];
  metrics = none;
}

abbrev fresh : GatewayState memory_server
fresh = with_large closed_breaker

abbrev now : Readings
now = record { today = "2026-01-01"; asked = 5; failed = 6; told = 7 }

abbrev request_for : String → CompletionRequest
request_for schema = record {
  schema_text = schema;
  prompt = "how many";
  max_tokens = 64;
  temperature = record { num = 0; den = 1 };
  generate_timeout_s = record { num = 30; den = 1 };
}

abbrev short_request : CompletionRequest
short_request = request_for "t(a)"

abbrev long_request : CompletionRequest
long_request = request_for "create table t(a)"

abbrev answer : CompletionResponse
answer = record {
  model_id = "small";
  text = "select 1";
  finish_reason = "stop";
  prompt_tokens = some (pos 20);
  completion_tokens = some (pos 5);
  cost_usd = record { num = 2500000; den = 10000000000 };
}

short_answered : (completions memory_server deps now short_request "k1" fresh).0 ≡ ok answer
unfolding completions authenticate_and_rate_limit authenticate enforce_rate_limit resolve_backend
    serve_with generate guard record_success settle enforce_tenant_quota enforce_quota bill
    compute_request_cost route_by_schema_length str_eq total_cost_usd tell_breaker ◌+ℤ◌
short_answered = refl

completions-IsServed_example : IsServed memory_server deps now short_request "k1" fresh answer
completions-IsServed_example =
    completions-IsServed memory_server deps now short_request "k1" fresh answer short_answered

unknown_key : authenticate deps.hash_api_key "k2" deps.auth_config ≡ err auth_error
unfolding authenticate str_eq
unknown_key = refl

known : authenticate deps.hash_api_key "k1" deps.auth_config ≡ ok acme
unfolding authenticate str_eq
known = refl

-- Both requests of the window have been made.
abbrev busy : GatewayState memory_server
busy = record fresh { store = λ k. (2, some 60) }

refused_rate : (rate memory_server deps now short_request "k1" busy acme known).0.allowed ≡ false
unfolding check_rate_limit
refused_rate = refl

within :
    (s : GatewayState memory_server)
    → s.store ≡ no_counters
    → (rate memory_server deps now long_request "k1" s acme known).0.allowed ≡ true
within s h = rw h (unfold check_rate_limit in refl)

abbrev large_backend : CircuitBreaker → ModelBackend
large_backend b = record {
  model_id = "large";
  client = fails;
  config = breaker_config;
  breaker = b;
}

abbrev counted_by : GatewayState memory_server → GatewayState memory_server
counted_by s = record s { store = (rate memory_server deps now long_request "k1" s acme known).1 }

routed :
    (b : CircuitBreaker)
    → resolve_backend memory_server deps long_request (counted_by (with_large b))
      ≡ ok (large_backend b)
unfolding resolve_backend route_by_schema_length str_eq
routed b = refl

abbrev Mapped : ModelClient → Type 0
Mapped c = MapsErrors memory_server (c long_request)

clients_fail_well : ClientsMapErrors memory_server deps long_request
clients_fail_well k c h = elim (Bool-cases (str_eq k "small")) [
  | inl e ↦ subst Mapped (some-injective answers c (rw e at h)) tt
  | inr e ↦ elim (Bool-cases (str_eq k "large")) [
    | inl f ↦ subst Mapped (some-injective fails c (rw f at (rw e at h))) tt
    | inr f ↦ absurd (none-some c (rw f at (rw e at h)))
  ]
]
  where
    none-some : (c : ModelClient) → none ≡ some c → ⊥
    none-some c h = cc

completions-IsHandled_example :
    IsHandled deps long_request (completions memory_server deps now long_request "k1" fresh).0
completions-IsHandled_example =
    completions-IsHandled memory_server deps now long_request "k1" fresh clients_fail_well
