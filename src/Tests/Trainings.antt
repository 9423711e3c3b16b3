-- ===== src/Tests/Trainings.antt =====
-- The checks before a training run and the listing of checkpoints.
use model_hub.Prelude.{
  ℕ, ◌*◌, ◌/◌, ◌≡◌, ◌≤◌, refl, true, false, Option, none, some, [], ◌∷◌, ◌++◌, String, ok, err, All,
  str_eq, if◌then◌else◌,
}
use model_hub.Prelude.Sorting.{IsAscending, sorted}
use model_hub.Prelude.SortOn.{sort_on}
use model_hub.Prelude.Ratio.{Ratio, ratio}
use model_hub.Common.Errors.{value_error}
use model_hub.Common.AtomicIo.{Entry, directory}
use model_hub.Common.Manifest.{KernelStatus}
use model_hub.Data.Schema.{NormalizedSample, Source, Split, Dialect}
use model_hub.Train.Checkpoints.{
  Checkpoint, is_listed, without_prefix, list_checkpoints, latest, validate_checkpoint_complete,
}
use model_hub.Train.Checkpoints.Listing.{list_checkpoints_no_number, list_checkpoints-latest}
use model_hub.Train.Preflight.{
  SftConfig, CoverageConfig, MemoryEstimateConfig, PreflightReport, run_sft_preflight,
  validate_dataset_schema, compute_token_length_stats, compute_trainable_coverage,
  parse_named_modules, add_module, by_layer, coverage_of, assert_full_layer_coverage,
  estimate_training_memory, assert_fits_in_memory, headroom_pct, LayerType, uncovered_layers,
  layer_type_of,
}
use model_hub.Train.Preflight.Ready.{IsReady, run_sft_preflight-IsReady}

abbrev complete_dir : Entry
complete_dir = directory (
    ("adapter_model.safetensors", "w")
    ∷ (("optimizer.pt", "o")
        ∷ (("scheduler.pt", "s")
            ∷ (("rng_state.pth", "r")
                ∷ (("trainer_state.json", "{}") ∷ (("modelhub_trainer_state.json", "{}") ∷ []))))))

abbrev int_of : String → Option ℕ
int_of s = if str_eq s "100" then some 100 else if str_eq s "20" then some 20 else none

backup_listed : is_listed "checkpoint-backup" complete_dir ≡ true
unfolding validate_checkpoint_complete str_eq
backup_listed = refl

backup_no_number : int_of (without_prefix "checkpoint-backup") ≡ none
unfolding str_eq
backup_no_number = refl

list_checkpoints_no_number_example :
    list_checkpoints int_of (
      some (
        ("checkpoint-100", complete_dir) ∷ []
        ++ ("checkpoint-backup", complete_dir) ∷ (("checkpoint-20", complete_dir) ∷ [])))
    ≡ err value_error
list_checkpoints_no_number_example =
    list_checkpoints_no_number int_of (("checkpoint-100", complete_dir) ∷ [])
      (("checkpoint-20", complete_dir) ∷ []) "checkpoint-backup" complete_dir backup_listed
      backup_no_number

abbrev twenty : Checkpoint
twenty = record { step = 20; name = "checkpoint-20" }

abbrev hundred : Checkpoint
hundred = record { step = 100; name = "checkpoint-100" }

two_listed :
    list_checkpoints int_of
      (some (("checkpoint-100", complete_dir) ∷ (("checkpoint-20", complete_dir) ∷ [])))
    ≡ ok (twenty ∷ (hundred ∷ []))
unfolding list_checkpoints validate_checkpoint_complete str_eq sort_on
two_listed = refl

latest-hundred : latest (twenty ∷ (hundred ∷ [])) ≡ some hundred
unfolding latest
latest-hundred = refl

list_checkpoints-latest_example :
    IsAscending (20 ∷ (100 ∷ [])) × All (λ c. c.step ≤ 100) (twenty ∷ (hundred ∷ []))
list_checkpoints-latest_example =
    list_checkpoints-latest int_of
      (some (("checkpoint-100", complete_dir) ∷ (("checkpoint-20", complete_dir) ∷ [])))
      (twenty ∷ (hundred ∷ [])) hundred two_listed latest-hundred

abbrev one_sample : NormalizedSample
one_sample = record {
  sample_id = "s1";
  db_id = "shop";
  question = "How many?";
  evidence = none;
  gold_sql = "select 1";
  difficulty = none;
  source = Source.bird;
  split = Split.train;
  dialect = Dialect.sqlite;
}

abbrev sft : SftConfig
sft = record { batch_size = 2; max_seq_len = 10; max_hours = 8; thinking_mode = false }

abbrev one_layer : CoverageConfig
one_layer = record { total_layers = 1; target_modules = "q_proj" ∷ [] }

abbrev scaled : ℕ → Ratio → ℕ
scaled n r = n * r.num / r.den

abbrev small_memory : MemoryEstimateConfig
small_memory = record {
  gpu_memory_bytes = 1000;
  gpu_memory_utilization = ratio 9 10;
  base_model_weight_bytes = 300;
  lora_trainable_param_bytes = 20;
  optimizer_state_multiplier = ratio 2 1;
  estimated_activation_bytes_per_token = 5;
  fixed_overhead_bytes = 40;
}

abbrev good_kernels : KernelStatus
good_kernels = record { causal_conv1d = true; fla = true; degraded = false }

abbrev passed_report : PreflightReport
passed_report = record {
  dataset_size = 1;
  token_length_stats = record {
    count = 1;
    min_tokens = 7;
    max_tokens = 7;
    mean_tokens = ratio 7 1;
    p50_tokens = 7;
    p99_tokens = 7;
    over_max_seq_len_count = 0;
  };
  coverage_report =
      record {
        layer_index = 0;
        layer_type = LayerType.full_attention;
        matched_modules = "q_proj" ∷ [];
      }
      ∷ [];
  memory_headroom_pct = ratio 40000 900;
}

preflight_passes :
    run_sft_preflight scaled
      (some one_sample ∷ [])
      (7 ∷ [])
      (some (0, "q_proj") ∷ [])
      sft
      one_layer
      small_memory
      good_kernels
    ≡ ok passed_report
unfolding run_sft_preflight validate_dataset_schema compute_token_length_stats
    compute_trainable_coverage coverage_of add_module by_layer parse_named_modules
    assert_full_layer_coverage uncovered_layers layer_type_of estimate_training_memory
    assert_fits_in_memory headroom_pct sorted sort_on str_eq
preflight_passes = refl

run_sft_preflight-IsReady_example :
    IsReady scaled
      (some one_sample ∷ [])
      (7 ∷ [])
      (some (0, "q_proj") ∷ [])
      sft
      one_layer
      small_memory
      good_kernels
      passed_report
run_sft_preflight-IsReady_example =
    run_sft_preflight-IsReady scaled (some one_sample ∷ []) (7 ∷ []) (some (0, "q_proj") ∷ []) sft
      one_layer small_memory good_kernels passed_report preflight_passes
