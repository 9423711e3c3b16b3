-- ===== src/Train/Preflight.antt =====
-- train/dry_run.py, gdn_lora_coverage.py, sft_config.py and runner.py: the checks before a training
-- run. The schema validation of a record, the parts of a module name that the regular expression
-- finds, the kernel status and the product of a size and a double, rounded down, are arguments.
pub mod Coverage
pub mod Ready
use model_hub.Prelude.{
  ℕ, suc, ◌+◌, ◌-◌, ◌*◌, ◌/◌, ◌≤◌, ◌<◌, ◌≡◌, ◌≢◌, ◌↔◌, inl, inr, refl, Bool, true, false, not, ◌&&◌,
  ◌||◌, Option, none, some, List, [], ◌∷◌, ◌++◌, map, String, Result, ok, err, ◌>>=◌, length, All,
  ltb, leb, ◌==◌, str_eq, get_or, if◌then◌else◌, arith, Bool-cases, Ensures, Ensures-bind,
  Ensures_ok,
}
use model_hub.Prelude.Ratio.{Ratio, ratio}
use model_hub.Prelude.Counting.{any_if, filter_if, count_if}
use model_hub.Prelude.Grouping.{sum_of}
use model_hub.Prelude.Sorting.{sorted}
use model_hub.Prelude.SortOn.{sort_on}
use model_hub.Common.Errors.{Exception, value_error}
use model_hub.Common.Manifest.{KernelStatus}
use model_hub.Data.Schema.{NormalizedSample}
use model_hub.Release.Rollback.{rank}

-- `NormalizedSample.model_validate` of each record; the first that is refused raises.
unfoldable pub validate_each :
    List (Option NormalizedSample) → Result Exception (List NormalizedSample)
validate_each [] = ok []
validate_each (none ∷ records) = err value_error
validate_each (some s ∷ records) = validate_each records >>= λ ss. ok (s ∷ ss)

unfoldable pub validate_dataset_schema :
    List (Option NormalizedSample) → Result Exception (List NormalizedSample)
unfolding validate_each
validate_dataset_schema raw_records =
    if length raw_records == 0 then err value_error else validate_each raw_records

pub record TokenLengthStats : Type 0 where
  pub count : ℕ
  pub min_tokens : ℕ
  pub max_tokens : ℕ
  pub mean_tokens : Ratio
  pub p50_tokens : ℕ
  pub p99_tokens : ℕ
  pub over_max_seq_len_count : ℕ

-- `sorted_values[rank - 1]`, of a list that is not empty
unfoldable pub token_percentile : List ℕ → ℕ → ℕ
token_percentile sorted_values pct = get_or sorted_values (rank pct (length sorted_values) - 1) 0

unfoldable pub compute_token_length_stats : List ℕ → ℕ → Result Exception TokenLengthStats
unfolding token_percentile
compute_token_length_stats token_counts max_seq_len =
    if length token_counts == 0
    then err value_error
    else let sorted_counts = sorted token_counts in
      ok (record {
        count = length sorted_counts;
        min_tokens = get_or sorted_counts 0 0;
        max_tokens = get_or sorted_counts (length sorted_counts - 1) 0;
        mean_tokens = ratio (sum_of (λ c. c) sorted_counts) (length sorted_counts);
        p50_tokens = token_percentile sorted_counts 50;
        p99_tokens = token_percentile sorted_counts 99;
        over_max_seq_len_count = count_if (λ c. ltb max_seq_len c) token_counts;
      })

pub record MemoryEstimateConfig : Type 0 where
  pub gpu_memory_bytes : ℕ
  pub gpu_memory_utilization : Ratio
  pub base_model_weight_bytes : ℕ
  pub lora_trainable_param_bytes : ℕ
  pub optimizer_state_multiplier : Ratio
  pub estimated_activation_bytes_per_token : ℕ
  pub fixed_overhead_bytes : ℕ

pub record MemoryEstimate : Type 0 where
  pub estimated_bytes : ℕ
  pub usable_bytes : ℕ

unfoldable pub fits : MemoryEstimate → Bool
fits e = leb e.estimated_bytes e.usable_bytes

-- `scaled n r` is `int(n * r)`, a product of doubles.
unfoldable pub estimate_training_memory :
    (ℕ → Ratio → ℕ) → ℕ → ℕ → MemoryEstimateConfig → Result Exception MemoryEstimate
estimate_training_memory scaled batch_size max_seq_len config =
    if leb batch_size 0 || leb max_seq_len 0
    then err value_error
    else ok (record {
      estimated_bytes =
          config.base_model_weight_bytes
          + config.lora_trainable_param_bytes
          + scaled config.lora_trainable_param_bytes config.optimizer_state_multiplier
          + config.estimated_activation_bytes_per_token * batch_size * max_seq_len
          + config.fixed_overhead_bytes;
      usable_bytes = scaled config.gpu_memory_bytes config.gpu_memory_utilization;
    })

unfoldable pub assert_fits_in_memory : MemoryEstimate → Result Exception (Unit {0})
unfolding fits
assert_fits_in_memory estimate = if not (fits estimate) then err value_error else ok tt

-- The headroom is asked for where the estimate fits.
unfoldable pub headroom_pct : MemoryEstimate → Result Exception Ratio
headroom_pct e =
    if e.usable_bytes == 0
    then err value_error
    else ok (ratio ((e.usable_bytes - e.estimated_bytes) * 100) e.usable_bytes)

pub data LayerType : Type 0 where
  full_attention gdn unknown : LayerType

pub record LayerModuleInfo : Type 0 where
  pub layer_index : ℕ
  pub module_suffixes : List String

pub record LayerCoverage : Type 0 where
  pub layer_index : ℕ
  pub layer_type : LayerType
  pub matched_modules : List String

abbrev attention_module_suffixes : List String
attention_module_suffixes = "q_proj" ∷ ("k_proj" ∷ ("v_proj" ∷ ("o_proj" ∷ [])))

abbrev gdn_module_suffixes : List String
gdn_module_suffixes = "in_proj_qkvz" ∷ ("in_proj_ba" ∷ ("out_proj" ∷ ("conv1d" ∷ [])))

-- `xs & ys`, as a part of xs
abbrev pub common : List String → List String → List String
common xs ys = filter_if (λ x. any_if (str_eq x) ys) xs

unfoldable pub layer_type_of : LayerModuleInfo → LayerType
layer_type_of layer =
    let is_attention = ltb 0 (length (common layer.module_suffixes attention_module_suffixes)) in
    let is_gdn = ltb 0 (length (common layer.module_suffixes gdn_module_suffixes)) in
    if is_attention && not is_gdn
    then LayerType.full_attention
    else if is_gdn && not is_attention
    then LayerType.gdn
    else LayerType.unknown

unfoldable pub covered : LayerCoverage → Bool
covered layer = ltb 0 (length layer.matched_modules)

-- `by_layer.setdefault(i, set()).add(suffix)`
unfoldable pub add_module : ℕ → String → List LayerModuleInfo → List LayerModuleInfo
add_module i suffix [] = record { layer_index = i; module_suffixes = suffix ∷ [] } ∷ []
add_module i suffix (layer ∷ layers) =
    if layer.layer_index == i
    then record {
      layer_index = i;
      module_suffixes =
          if any_if (str_eq suffix) layer.module_suffixes
          then layer.module_suffixes
          else suffix ∷ layer.module_suffixes;
    }
      ∷ layers
    else layer ∷ add_module i suffix layers

unfoldable pub by_layer : List (Option (ℕ × String)) → List LayerModuleInfo → List LayerModuleInfo
unfolding add_module
by_layer [] layers = layers
by_layer (none ∷ names) layers = by_layer names layers
by_layer (some (i, suffix) ∷ names) layers = by_layer names (add_module i suffix layers)

unfoldable pub parse_named_modules : List (Option (ℕ × String)) → List LayerModuleInfo
unfolding by_layer
parse_named_modules names = sort_on (λ l. l.layer_index) (by_layer names [])

unfoldable pub coverage_of : List String → LayerModuleInfo → LayerCoverage
unfolding layer_type_of
coverage_of target_modules layer = record {
  layer_index = layer.layer_index;
  layer_type = layer_type_of layer;
  matched_modules = common layer.module_suffixes target_modules;
}

unfoldable pub compute_trainable_coverage :
    List (Option (ℕ × String)) → List String → Result Exception (List LayerCoverage)
compute_trainable_coverage names target_modules =
    let layers = parse_named_modules names in
    if length layers == 0 then err value_error else ok (map (coverage_of target_modules) layers)

unfoldable pub uncovered_layers : List LayerCoverage → List LayerCoverage
unfolding covered
uncovered_layers layers = filter_if (λ l. not (covered l)) layers

unfoldable pub assert_full_layer_coverage : List LayerCoverage → ℕ → Result Exception (Unit {0})
unfolding uncovered_layers
assert_full_layer_coverage layers expected_total_layers =
    if not (length layers == expected_total_layers)
    then err value_error
    else if ltb 0 (length (uncovered_layers layers))
    then err value_error
    else ok tt

pub record SftConfig : Type 0 where
  pub batch_size : ℕ
  pub max_seq_len : ℕ
  pub max_hours : ℕ
  pub thinking_mode : Bool

-- The checks of `model_post_init`.
unfoldable pub sft_post_init : SftConfig → Result Exception SftConfig
sft_post_init config =
    if config.thinking_mode
    then err value_error
    else if leb config.max_hours 0
    then err value_error
    else ok config

pub record CoverageConfig : Type 0 where
  pub total_layers : ℕ
  pub target_modules : List String

pub record PreflightReport : Type 0 where
  pub dataset_size : ℕ
  pub token_length_stats : TokenLengthStats
  pub coverage_report : List LayerCoverage
  pub memory_headroom_pct : Ratio

unfoldable pub run_sft_preflight :
    (ℕ → Ratio → ℕ)
    → List (Option NormalizedSample)
    → List ℕ
    → List (Option (ℕ × String))
    → SftConfig
    → CoverageConfig
    → MemoryEstimateConfig
    → KernelStatus
    → Result Exception PreflightReport
run_sft_preflight scaled raw_records token_counts names sft coverage memory kernel_status =
    validate_dataset_schema raw_records >>= λ samples.
    if not (length token_counts == length samples)
    then err value_error
    else compute_token_length_stats token_counts sft.max_seq_len >>= λ stats.
        compute_trainable_coverage names coverage.target_modules >>= λ layers.
        assert_full_layer_coverage layers coverage.total_layers >>= λ u.
        if kernel_status.degraded
        then err value_error
        else estimate_training_memory scaled sft.batch_size sft.max_seq_len memory >>= λ estimate.
            assert_fits_in_memory estimate >>= λ v. headroom_pct estimate >>= λ headroom.
            ok (record {
              dataset_size = length samples;
              token_length_stats = stats;
              coverage_report = layers;
              memory_headroom_pct = headroom;
            })
