-- ===== src/Gateway/RateLimit.antt =====
-- gateway/rate_limit.py: the fixed-window limiter. A negative limit, which the configuration's type
-- allows, refuses everything as 0 does.
pub mod Window
use model_hub.Prelude.{
  ℕ, Bool, true, false, [], ◌∷◌, String, ◌<>◌, Result, ok, err, leb, ◌==◌, if◌then◌else◌,
}
use model_hub.Common.Errors.{ModelHubError, gateway_error, rate_limit_exceeded, serve, text, number}
use model_hub.Gateway.Redis.{Redis}

pub record RateLimitConfig : Type 0 where
  pub requests_per_window : ℕ
  pub window_seconds : ℕ

pub record RateLimitDecision : Type 0 where
  pub allowed : Bool
  pub current_count : ℕ
  pub limit : ℕ

abbrev pub rate_limit_key : String → String
rate_limit_key principal_key = "modelhub:ratelimit:" <> principal_key

abbrev pub rate_limit_error : String → RateLimitDecision → ModelHubError
rate_limit_error principal_key decision = record {
  error_class = gateway_error;
  code = rate_limit_exceeded;
  stage = serve;
  context =
      ("principal_key", text principal_key) ∷ ("current_count", number decision.current_count) ∷ [];
  retryable = true;
}

module _ (r : Redis) where
  -- `_INCR_WITH_WINDOW_LUA`
  unfoldable pub incr_with_window : String → ℕ → r.State → ℕ × r.State
  incr_with_window key window s =
      let (count, s') = r.incrby key 1 s in
      (count, if count == 1 then r.expire key window s' else s')

  unfoldable pub check_rate_limit : String → RateLimitConfig → r.State → RateLimitDecision × r.State
  unfolding incr_with_window
  check_rate_limit principal_key config s =
      let (count, s') = incr_with_window (rate_limit_key principal_key) config.window_seconds s in
      (
        record {
          allowed = leb count config.requests_per_window;
          current_count = count;
          limit = config.requests_per_window;
        },
        s',
      )

  unfoldable pub enforce_rate_limit :
      String → RateLimitConfig → r.State → Result ModelHubError RateLimitDecision × r.State
  unfolding check_rate_limit
  enforce_rate_limit principal_key config s =
      let (decision, s') = check_rate_limit principal_key config s in
      (if decision.allowed then ok decision else err (rate_limit_error principal_key decision), s')
