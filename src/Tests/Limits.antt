-- ===== src/Tests/Limits.antt =====
-- The rate limiter and the quota on a small server.
use model_hub.Prelude.{
  ℕ, ◌+◌, ◌≤◌, ◌<◌, ◌≡◌, ◌≢◌, refl, none, List, [], ◌∷◌, String, arith, str_eq, max, min, leb, ◌-◌,
  ok, err, if◌then◌else◌,
}
use model_hub.Prelude.Counting.{count_if}
use model_hub.Prelude.Int.{pos}
use model_hub.Gateway.RateLimit.{RateLimitConfig, rate_limit_key, check_rate_limit}
use model_hub.Gateway.RateLimit.Window.{
  admitted, admitted_lem, Expires, LimiterEvent, request, elapse, run_events, run_events-Expires,
}
use model_hub.Gateway.Quota.{QuotaConfig, quota_key, quota_error, enforce_quota}
use model_hub.Common.Errors.{value_error}
use model_hub.Gateway.Quota.Daily.{enforce_quota_decides, granted, granted-le, status_of}
use model_hub.Tests.RedisServer.{no_counters, memory_server, memory_server-IsLawful}

abbrev two_a_minute : RateLimitConfig
two_a_minute = record { requests_per_window = 2; window_seconds = 60 }

abbrev three_and_one : List String
three_and_one = "acme" ∷ "acme" ∷ "zenith" ∷ "acme" ∷ []

admitted_lem_example :
    admitted memory_server memory_server-IsLawful two_a_minute
      (omega arith)
      "acme"
      three_and_one
      no_counters
    ≡ min
        (count_if (str_eq "acme") three_and_one)
        (2 - memory_server.value no_counters (rate_limit_key "acme"))
admitted_lem_example =
    admitted_lem memory_server memory_server-IsLawful two_a_minute (omega arith) "acme"
      three_and_one no_counters

abbrev limiter_history : List LimiterEvent
limiter_history = request "acme" ∷ elapse 30 ∷ request "zenith" ∷ elapse 40 ∷ request "acme" ∷ []

nothing_counted :
    Expires memory_server memory_server-IsLawful two_a_minute (omega arith) no_counters
nothing_counted p h = absurd (omega arith)

abbrev after_history : memory_server.State
after_history =
    run_events memory_server memory_server-IsLawful two_a_minute (omega arith) limiter_history
      no_counters

acme_counted : 0 < memory_server.value after_history (rate_limit_key "acme")
unfolding run_events check_rate_limit str_eq
acme_counted = omega arith

run_events-Expires_example : memory_server.ttl after_history (rate_limit_key "acme") ≢ none
run_events-Expires_example =
    run_events-Expires memory_server memory_server-IsLawful two_a_minute (omega arith)
      limiter_history no_counters nothing_counted "acme" acme_counted

abbrev hundred_a_day : QuotaConfig
hundred_a_day = record { daily_token_quota_by_tier = ("free", 100) ∷ [] }

abbrev free_tier : String → String
free_tier tenant = "free"

abbrev spending : List (String × ℕ)
spending = ("acme", 60) ∷ ("zenith", 90) ∷ ("acme", 60) ∷ []

granted-le_example :
    memory_server.value no_counters (quota_key "acme" "2026-01-01")
      + granted memory_server memory_server-IsLawful "2026-01-01" hundred_a_day free_tier "acme"
          spending no_counters
    ≤ max 100 (memory_server.value no_counters (quota_key "acme" "2026-01-01"))
granted-le_example =
    granted-le memory_server memory_server-IsLawful "2026-01-01" hundred_a_day free_tier "acme"
      spending no_counters {limit = 100} (unfold str_eq in refl)

enforce_quota_decides_example :
    (enforce_quota memory_server "2026-01-01" "acme" "free" (pos 60) hundred_a_day no_counters).0
    ≡ (if leb 60 0
        then err value_error
        else if leb 60 100
        then ok (
            status_of memory_server memory_server-IsLawful "2026-01-01" hundred_a_day 100 "acme" 60
              no_counters)
        else err (
            quota_error "acme" "free" (
              status_of memory_server memory_server-IsLawful "2026-01-01" hundred_a_day 100 "acme"
                60 no_counters)))
enforce_quota_decides_example =
    enforce_quota_decides memory_server memory_server-IsLawful "2026-01-01" hundred_a_day "acme"
      "free" 60 no_counters {limit = 100} (unfold str_eq in refl)
