-- ===== src/Gateway/Quota.antt =====
-- gateway/quota.py: the daily token quota. The date of the call, which names the counter, is the
-- argument `today`.
use model_hub.Prelude.{
  ℕ, Bool, true, false, Option, none, some, [], ◌∷◌, String, ◌<>◌, Result, ok, err, leb, ◌==◌,
  if◌then◌else◌,
}
use model_hub.Prelude.Dict.{Dict, lookup}
use model_hub.Prelude.Int.{ℤ, pos_part, is_not_positive}
use model_hub.Common.Errors.{
  ModelHubError, Exception, hub_error, value_error, gateway_error, quota_exceeded, serve, text,
  number,
}
use model_hub.Gateway.Redis.{Redis}
pub mod Daily

pub record QuotaConfig : Type 0 where
  pub daily_token_quota_by_tier : Dict ℕ

pub record QuotaStatus : Type 0 where
  pub allowed : Bool
  pub tokens_used_today : ℕ
  pub daily_limit : ℕ

abbrev pub seconds_per_day : ℕ
seconds_per_day = 86400

abbrev pub quota_key : String → String → String
quota_key tenant_id today = "modelhub:quota:" <> (tenant_id <> (":" <> today))

abbrev pub quota_error : String → String → QuotaStatus → Exception
quota_error tenant_id tier status = hub_error (record {
  error_class = gateway_error;
  code = quota_exceeded;
  stage = serve;
  context =
      ("tenant_id", text tenant_id)
      ∷ ("tier", text tier)
      ∷ ("tokens_used_today", number status.tokens_used_today)
      ∷ ("daily_limit", number status.daily_limit)
      ∷ [];
  retryable = false;
})

module _ (r : Redis) (today : String) where
  -- `_INCRBY_WITH_DAILY_EXPIRY_LUA`
  unfoldable pub incrby_with_daily_expiry : String → ℕ → r.State → ℕ × r.State
  incrby_with_daily_expiry key tokens s =
      let (total, s') = r.incrby key tokens s in
      (total, if tokens == total then r.expire key seconds_per_day s' else s')

  record_under_limit : String → ℕ → ℕ → r.State → QuotaStatus × r.State
  unfolding incrby_with_daily_expiry
  record_under_limit tenant_id tokens daily_limit s =
      let (total, s') = incrby_with_daily_expiry (quota_key tenant_id today) tokens s in
      (
        record {
          allowed = leb total daily_limit;
          tokens_used_today = total;
          daily_limit = daily_limit;
        },
        s',
      )

  unfoldable pub record_and_check_quota :
      String → String → ℤ → QuotaConfig → r.State → Result Exception QuotaStatus × r.State
  unfolding record_under_limit
  record_and_check_quota tenant_id tier tokens_used config s =
      if is_not_positive tokens_used
      then (err value_error, s)
      else elim (lookup tier config.daily_token_quota_by_tier) [
        | none ↦ (err value_error, s)
        | some daily_limit ↦
            let (status, s') = record_under_limit tenant_id (pos_part tokens_used) daily_limit s in
            (ok status, s')
      ]

  refuse_over_quota : String → String → Result Exception QuotaStatus → Result Exception QuotaStatus
  refuse_over_quota tenant_id tier (err e) = err e
  refuse_over_quota tenant_id tier (ok status) =
      if status.allowed then ok status else err (quota_error tenant_id tier status)

  unfoldable pub enforce_quota :
      String → String → ℤ → QuotaConfig → r.State → Result Exception QuotaStatus × r.State
  unfolding record_and_check_quota refuse_over_quota
  enforce_quota tenant_id tier tokens_used config s =
      let (status, s') = record_and_check_quota tenant_id tier tokens_used config s in
      (refuse_over_quota tenant_id tier status, s')
