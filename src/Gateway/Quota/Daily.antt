-- ===== src/Gateway/Quota/Daily.antt =====
-- The quota over a day's requests from any tenants.
use model_hub.Prelude.{
  ℕ, ◌+◌, ◌≤◌, ◌≡◌, refl, inl, inr, false, none, some, List, [], ◌∷◌, String, ◌<>◌, ◌∙◌, arith, leb,
  max, str_eq, str_eq_iff, if◌then◌else◌, Bool-cases, Option-cases, Result, ok, err,
}
use model_hub.Prelude.Dict.{lookup}
use model_hub.Prelude.Int.{pos}
use model_hub.Prelude.Text.{str_eq-append_left, str_eq-append_right}
use model_hub.Common.Errors.{Exception, value_error}
use model_hub.Gateway.Redis.{Redis, IsLawful}
use model_hub.Gateway.Quota.{
  QuotaConfig, QuotaStatus, quota_key, quota_error, seconds_per_day, incrby_with_daily_expiry,
  enforce_quota,
}

pub str_eq-quota_key :
    (today s t : String) → str_eq (quota_key s today) (quota_key t today) ≡ str_eq s t
str_eq-quota_key today s t =
    str_eq-append_left "modelhub:quota:" (s <> (":" <> today)) (t <> (":" <> today))
    ∙ str_eq-append_right (":" <> today) s t

module _ (r : Redis) (lawful : IsLawful r) (today : String) (config : QuotaConfig) where
  abbrev pub used : r.State → String → ℕ
  used s t = r.value s (quota_key t today)

  used-incrby :
      (q t : String) (n : ℕ) (s : r.State)
      → used (incrby_with_daily_expiry r today (quota_key q today) n s).1 t
        ≡ (if str_eq t q then used s q + n else used s t)
  unfolding incrby_with_daily_expiry
  used-incrby q t n s = ground (
    arith,
    lawful.value-incrby (quota_key t today) (quota_key q today) n s,
    lawful.value-expire (quota_key t today) (quota_key q today) seconds_per_day
        (r.incrby (quota_key q today) n s).1 (omega arith),
    str_eq-quota_key today t q,
  )

  -- The status that a request of `n` tokens is answered with when the tier's limit is `limit`.
  abbrev pub status_of : ℕ → String → ℕ → r.State → QuotaStatus
  status_of limit t n s = record {
    allowed = leb (used s t + n) limit;
    tokens_used_today = used s t + n;
    daily_limit = limit;
  }

  -- What a request of `n` tokens does, on every branch.
  pub enforce_quota_decides :
      (t tier : String) (n : ℕ) (s : r.State) {limit : ℕ}
      → lookup tier config.daily_token_quota_by_tier ≡ some limit
      → (enforce_quota r today t tier (pos n) config s).0 ≡ (
          if leb n 0
          then err value_error
          else if leb (used s t + n) limit
          then ok (status_of limit t n s)
          else err (quota_error t tier (status_of limit t n s)))
  unfolding enforce_quota incrby_with_daily_expiry
  enforce_quota_decides t tier n s h =
      rw (h, enforce_quota, lawful.incrby-result (quota_key t today) n s) (ground arith)

  -- A request of `n` tokens adds them to its own tenant's counter, over quota or not, and touches
  -- no other tenant's.
  used-enforce_quota :
      (q tier t : String) (n : ℕ) (s : r.State) {limit : ℕ}
      → lookup tier config.daily_token_quota_by_tier ≡ some limit
      → used (enforce_quota r today q tier (pos n) config s).1 t
        ≡ (if str_eq t q then used s q + n else used s t)
  unfolding enforce_quota
  used-enforce_quota q tier t n s h = ground (arith, used-incrby q t n s, str_eq_iff t q)

  -- With a tier that has no quota the store stays as it is.
  enforce_quota_unknown_tier :
      (q tier : String) (n : ℕ) (s : r.State)
      → lookup tier config.daily_token_quota_by_tier ≡ none
      → enforce_quota r today q tier (pos n) config s ≡ (err value_error, s)
  unfolding enforce_quota
  enforce_quota_unknown_tier q tier n s h = ground arith

  -- The tokens of a request that is answered.
  abbrev answered : ℕ → Result Exception QuotaStatus → ℕ
  answered n (ok status) = n
  answered n (err e) = 0

  module _ (tier_of : String → String) where
    -- The tokens of a tenant's requests that are answered, among requests of all tenants.
    pub granted : String → List (String × ℕ) → r.State → ℕ
    granted t [] s = 0
    granted t ((q, n) ∷ qs) s =
        let (res, s') = enforce_quota r today q (tier_of q) (pos n) config s in
        (if str_eq t q then answered n res else 0) + granted t qs s'

    granted-other :
        (t q : String) (n : ℕ) (s : r.State)
        → str_eq t q ≡ false
        → used (enforce_quota r today q (tier_of q) (pos n) config s).1 t ≡ used s t
    granted-other t q n s e =
        elim (Option-cases (lookup (tier_of q) config.daily_token_quota_by_tier)) [
          | inl u ↦ rw (enforce_quota_unknown_tier q (tier_of q) n s u) refl
          | inr (limit, k) ↦ rw (used-enforce_quota q (tier_of q) t n s k, e) refl
        ]

    -- On a server that keeps the documented behaviour of INCRBY and EXPIRE: whatever requests of
    -- one day follow one another, if a tenant's tier has a quota, the tokens that are granted to
    -- the tenant and those that were counted before stay within the quota, or nothing is granted.
    pub granted-le :
        (t : String) (qs : List (String × ℕ)) (s : r.State) {limit : ℕ}
        → lookup (tier_of t) config.daily_token_quota_by_tier ≡ some limit
        → r.value s (quota_key t today) + granted t qs s ≤ max limit (r.value s (quota_key t today))
    unfolding granted
    granted-le t [] s h = omega arith
    granted-le t ((q, n) ∷ qs) s {limit} h =
        let s' = (enforce_quota r today q (tier_of q) (pos n) config s).1 in
        let rest : used s' t + granted t qs s' ≤ max limit (used s' t) = granted-le t qs s' h in
        elim (Bool-cases (str_eq t q)) [
          | inl e ↦
              let same : t ≡ q = (str_eq_iff t q).0 e in
              let hq : lookup (tier_of q) config.daily_token_quota_by_tier ≡ some limit =
                rw same at h in
              ground (
                arith,
                used-enforce_quota q (tier_of q) t n s hq,
                enforce_quota_decides q (tier_of q) n s hq,
              )
          | inr e ↦ ground (arith, granted-other t q n s e)
        ]
