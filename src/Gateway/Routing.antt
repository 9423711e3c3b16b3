-- ===== src/Gateway/Routing.antt =====
-- gateway/routing.py: a short schema goes to one model, a long one to the other. `len(text)` is the
-- number of characters.
use Prim.Native.String.{count}
use model_hub.Prelude.{ℕ, ◌/◌, ◌*◌, ◌≡◌, String, ltb, if◌then◌else◌, arith}

pub data ThresholdSource : Type 0 where
  estimate measured : ThresholdSource

pub record RoutingConfig : Type 0 where
  pub schema_token_threshold : ℕ
  pub threshold_source : ThresholdSource
  pub short_schema_model_id : String
  pub long_schema_model_id : String

abbrev pub chars_per_token_estimate : ℕ
chars_per_token_estimate = 4

unfoldable pub estimate_token_count : String → ℕ
estimate_token_count text = count text / chars_per_token_estimate

unfoldable pub route_by_schema_length : String → RoutingConfig → String
unfolding estimate_token_count
route_by_schema_length schema_text config =
    if ltb (estimate_token_count schema_text) config.schema_token_threshold
    then config.short_schema_model_id
    else config.long_schema_model_id

-- The short-schema model serves exactly the schemas with fewer than four characters for each token
-- of the threshold; all others go to the long-schema model.
pub route_by_schema_length_threshold :
    (schema_text : String) (config : RoutingConfig)
    → route_by_schema_length schema_text config ≡ (
        if ltb (count schema_text) (4 * config.schema_token_threshold)
        then config.short_schema_model_id
        else config.long_schema_model_id)
unfolding route_by_schema_length
route_by_schema_length_threshold schema_text config = ground arith
