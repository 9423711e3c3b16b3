-- ===== src/Gateway/App/Types.antt =====
-- The dependencies, requests and responses of gateway/app.py, and the events of
-- monitor/exporter.py's `GatewayMetrics`.
use model_hub.Prelude.{ℕ, Option, List, String, Result}
use model_hub.Prelude.Dict.{Dict}
use model_hub.Prelude.Int.{ℤ}
use model_hub.Prelude.Ratio.{Ratio}
use model_hub.Common.Errors.{Exception, ErrorCode, ContextValue}
use model_hub.Gateway.Redis.{Redis}
use model_hub.Gateway.Auth.{AuthConfig}
use model_hub.Gateway.RateLimit.{RateLimitConfig}
use model_hub.Gateway.Quota.{QuotaConfig}
use model_hub.Gateway.Billing.{BillingConfig}
use model_hub.Gateway.Routing.{RoutingConfig}
use model_hub.Gateway.Breaker.{CircuitBreakerConfig, CircuitBreaker, CircuitState}

pub record CompletionRequest : Type 0 where
  pub schema_text : String
  pub prompt : String
  pub max_tokens : ℕ
  pub temperature : Ratio
  pub generate_timeout_s : Ratio

pub record GenerationResult : Type 0 where
  pub text : String
  pub finish_reason : String
  pub model_id : String
  pub prompt_tokens : Option ℤ
  pub completion_tokens : Option ℤ

pub record CompletionResponse : Type 0 where
  pub model_id : String
  pub text : String
  pub finish_reason : String
  pub prompt_tokens : Option ℤ
  pub completion_tokens : Option ℤ
  pub cost_usd : Ratio

-- The label `outcome` of a recorded request.
pub data Outcome : Type 0 where
  code_outcome : ErrorCode → Outcome
  upstream_failure success : Outcome

-- What the Prometheus counters and the gauge are told, in order.
pub data MetricEvent : Type 0 where
  request_recorded : String → Outcome → MetricEvent
  rate_limit_denied : ContextValue → MetricEvent
  quota_denied : String → MetricEvent
  breaker_state : String → CircuitState → MetricEvent

-- A model client: its server answers or an exception is raised.
abbrev pub ModelClient : Type 0
ModelClient = CompletionRequest → Result Exception GenerationResult

pub record GatewayDeps : Type 0 where
  pub hash_api_key : String → String
  pub auth_config : AuthConfig
  pub rate_limit_config : RateLimitConfig
  pub quota_config : QuotaConfig
  pub billing_config : BillingConfig
  pub routing_config : RoutingConfig
  pub model_clients : Dict ModelClient

-- The parts of the dependencies that a request changes. `metrics` is none where they are disabled.
pub record GatewayState (r : Redis) : Type 0 where
  pub store : r.State
  pub circuit_breakers : Dict (CircuitBreakerConfig × CircuitBreaker)
  pub metrics : Option (List MetricEvent)

-- The date, and what the clock reads at the guard, at a failure and when the metrics are told.
pub record Readings : Type 0 where
  pub today : String
  pub asked : ℕ
  pub failed : ℕ
  pub told : ℕ

-- What `_resolve_backend` finds under the model's id.
pub record ModelBackend : Type 0 where
  pub model_id : String
  pub client : ModelClient
  pub config : CircuitBreakerConfig
  pub breaker : CircuitBreaker
