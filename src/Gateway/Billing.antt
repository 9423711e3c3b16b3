-- ===== src/Gateway/Billing.antt =====
-- gateway/billing.py. Prices and costs are exact fractions of a dollar.
use model_hub.Prelude.{
  ℕ, ◌+◌, ◌*◌, ◌≡◌, ◌||◌, arith, none, some, String, Result, ok, err, if◌then◌else◌,
}
use model_hub.Prelude.Dict.{Dict, lookup}
use model_hub.Prelude.Int.{ℤ, pos_part, is_negative}
use model_hub.Prelude.Ratio.{Ratio}
use model_hub.Common.Errors.{Exception, value_error}

pub record BillingConfig : Type 0 where
  pub price_per_1k_prompt_tokens_usd : Dict Ratio
  pub price_per_1k_completion_tokens_usd : Dict Ratio

pub record RequestCost : Type 0 where
  pub model_id : String
  pub prompt_tokens : ℤ
  pub completion_tokens : ℤ
  pub prompt_cost_usd : Ratio
  pub completion_cost_usd : Ratio

-- `(tokens / 1000) * rate`
abbrev pub token_cost : ℕ → Ratio → Ratio
token_cost tokens rate = record { num = tokens * rate.num; den = 1000 * rate.den }

unfoldable pub total_cost_usd : RequestCost → Ratio
total_cost_usd c = record {
  num =
      c.prompt_cost_usd.num * c.completion_cost_usd.den
      + c.completion_cost_usd.num * c.prompt_cost_usd.den;
  den = c.prompt_cost_usd.den * c.completion_cost_usd.den;
}

unfoldable pub compute_request_cost : String → ℤ → ℤ → BillingConfig → Result Exception RequestCost
compute_request_cost model_id prompt_tokens completion_tokens config =
    if is_negative prompt_tokens || is_negative completion_tokens
    then err value_error
    else elim (lookup model_id config.price_per_1k_prompt_tokens_usd) [
      | none ↦ err value_error
      | some prompt_rate ↦ elim (lookup model_id config.price_per_1k_completion_tokens_usd) [
        | none ↦ err value_error
        | some completion_rate ↦ ok (record {
          model_id = model_id;
          prompt_tokens = prompt_tokens;
          completion_tokens = completion_tokens;
          prompt_cost_usd = token_cost (pos_part prompt_tokens) prompt_rate;
          completion_cost_usd = token_cost (pos_part completion_tokens) completion_rate;
        })
      ]
    ]

pub compute_request_cost-err :
    (model_id : String) (prompt_tokens completion_tokens : ℤ) (config : BillingConfig)
    {x : Exception}
    → compute_request_cost model_id prompt_tokens completion_tokens config ≡ err x
    → x ≡ value_error
unfolding compute_request_cost
compute_request_cost-err model_id prompt_tokens completion_tokens config h = ground arith
