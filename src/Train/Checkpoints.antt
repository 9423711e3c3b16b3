-- ===== src/Train/Checkpoints.antt =====
-- train/checkpoint_state.py. What stands at a path is an entry of the file system; the listing of
-- the checkpoints' root is its names with their entries, sorted by name as `sorted(iterdir())` is,
-- and `int(text)` is a parameter that gives none where it raises.
pub mod Listing
use model_hub.Prelude.{
  ℕ, Bool, true, false, not, ◌&&◌, Option, none, some, List, [], ◌∷◌, ◌++◌, map, String, ◌<>◌,
  Result, ok, err, ◌>>=◌, length, ◌==◌, str_eq, if◌then◌else◌,
}
use Prim.Native.String.{slice, len}
use text.Mathlib.Text.{starts_with}
use model_hub.Prelude.Counting.{any_if, filter_if}
use model_hub.Prelude.SortOn.{sort_on}
use model_hub.Common.Errors.{Exception, value_error}
use model_hub.Common.AtomicIo.{FilePath, Entry, file, directory, World, atomic_replace_dir}

abbrev pub required_checkpoint_files : List String
required_checkpoint_files =
    "adapter_model.safetensors"
    ∷ ("optimizer.pt"
        ∷ ("scheduler.pt"
            ∷ ("rng_state.pth" ∷ ("trainer_state.json" ∷ ("modelhub_trainer_state.json" ∷ [])))))

abbrev checkpoint_dir_prefix : String
checkpoint_dir_prefix = "checkpoint-"

unfoldable pub checkpoint_dir_for_step : (ℕ → String) → FilePath → ℕ → FilePath
checkpoint_dir_for_step text_of checkpoints_root step = record {
  parent = checkpoints_root.parent <> ("/" <> checkpoints_root.name);
  name = checkpoint_dir_prefix <> text_of step;
}

-- `name in {p.name for p in checkpoint_dir.iterdir()}`
abbrev pub is_present : List (String × String) → String → Bool
is_present files name = any_if (λ (n, bytes). str_eq name n) files

-- `REQUIRED_CHECKPOINT_FILES - present`
abbrev pub missing_files : List (String × String) → List String
missing_files files = filter_if (λ name. not (is_present files name)) required_checkpoint_files

unfoldable pub validate_checkpoint_complete : Option Entry → Result Exception (Unit {0})
validate_checkpoint_complete none = err value_error
validate_checkpoint_complete (some (file bytes)) = err value_error
validate_checkpoint_complete (some (directory files)) =
    if length (missing_files files) == 0 then ok tt else err value_error

-- The check of the temporary directory, then its atomic move.
unfoldable pub finalize_checkpoint :
    (ℕ → Bool) → String → FilePath → FilePath → String → World → Result Exception FilePath × World
finalize_checkpoint fails torn tmp_dir final_dir uuid w =
    elim (validate_checkpoint_complete (w.files tmp_dir)) [
      | err e ↦ (err e, w)
      | ok u ↦ atomic_replace_dir fails torn tmp_dir final_dir uuid w
    ]

pub record Checkpoint : Type 0 where
  pub step : ℕ
  pub name : String

abbrev pub is_directory : Entry → Bool
is_directory (directory files) = true
is_directory (file bytes) = false

-- `child.name.startswith(_CHECKPOINT_DIR_PREFIX)`, and the name without the prefix
abbrev pub has_prefix : String → Bool
has_prefix name = starts_with name checkpoint_dir_prefix

abbrev pub without_prefix : String → String
without_prefix name = slice name 11 (len name)

-- `child.is_dir()`, the name's prefix and the completeness check pass.
abbrev pub is_complete : Entry → Bool
is_complete e = elim (validate_checkpoint_complete (some e)) [ ok u ↦ true | err x ↦ false ]

abbrev pub is_listed : String → Entry → Bool
is_listed name e = is_directory e && has_prefix name && is_complete e

module _ (int_of : String → Option ℕ) where
  -- The loop over the children.
  unfoldable pub valid_checkpoints : List (String × Entry) → Result Exception (List Checkpoint)
  valid_checkpoints [] = ok []
  valid_checkpoints ((name, e) ∷ children) =
      if is_listed name e
      then elim (int_of (without_prefix name)) [
        | none ↦ err value_error
        | some step ↦
            valid_checkpoints children >>= λ cs. ok (record { step = step; name = name } ∷ cs)
      ]
      else valid_checkpoints children

  -- The root is not a directory, or its children are listed.
  unfoldable pub list_checkpoints :
      Option (List (String × Entry)) → Result Exception (List Checkpoint)
  unfolding valid_checkpoints
  list_checkpoints none = ok []
  list_checkpoints (some children) =
      valid_checkpoints children >>= λ cs. ok (sort_on (λ c. c.step) cs)

-- `self.checkpoints[-1] if self.checkpoints else None`
unfoldable pub latest : List Checkpoint → Option Checkpoint
latest [] = none
latest (c ∷ []) = some c
latest (c ∷ (d ∷ cs)) = latest (d ∷ cs)
