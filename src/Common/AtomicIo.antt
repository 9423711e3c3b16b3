-- ===== src/Common/AtomicIo.antt =====
-- common/atomic_io.py. A path is its parent and its name, and the file system is the function from
-- a path to what stands there. Each call of the operating system may raise an `OSError`, as the
-- environment `fails` decides by the number of the call, and every state that the files pass
-- through is kept, so that a crash at any point is one of them. `torn` is what a failing write
-- leaves; the uuid in a name is an argument.
pub mod Paths
pub mod Steps
pub mod WriteBytes
pub mod ReplaceDir
use model_hub.Prelude.{
  ℕ, suc, Bool, true, false, not, ◌&&◌, Option, none, some, List, [], ◌∷◌, String, ◌<>◌, Result, ok,
  err, str_eq, if◌then◌else◌,
}
use model_hub.Prelude.Dict.{Dict}
use model_hub.Common.Errors.{
  ModelHubError, base_error, io_atomic_write_failed, data_stage, ContextValue, text, Exception,
  hub_error,
}

-- A `pathlib.Path`.
pub record FilePath : Type 0 where
  pub parent : String
  pub name : String

abbrev pub path_eq : FilePath → FilePath → Bool
path_eq p q = str_eq p.parent q.parent && str_eq p.name q.name

-- What stands at a path: the bytes of a file, or a directory's files with their bytes.
pub data Entry : Type 0 where
  file : String → Entry
  directory : List (String × String) → Entry

abbrev pub Files : Type 0
Files = FilePath → Option Entry

abbrev pub put : FilePath → Option Entry → Files → Files
put p e files = λ q. if path_eq q p then e else files q

-- `os.replace(src, dst)` where it succeeds
abbrev pub moved : FilePath → FilePath → Files → Files
moved src dst files = put src none (put dst (files src) files)

pub record World : Type 0 where
  pub files : Files
  pub passed : List Files
  pub calls : ℕ

-- A call of the operating system returns true, or false for an `OSError`.
abbrev pub Step : Type 0
Step = World → Bool × World

abbrev pub became : Files → World → World
became files w = record { files = files; passed = files ∷ w.passed; calls = suc w.calls }

abbrev pub os_call : (ℕ → Bool) → (Files → Files) → (Files → Files) → Step
os_call fails success failure w =
    if fails w.calls
    then (false, became (failure w.files) w)
    else (true, became (success w.files) w)

-- One statement of a `try` after another.
infixr 20 ◌then_do◌
abbrev pub ◌then_do◌ : Step → Step → Step
s then_do t = λ w. let (done, w') = s w in if done then t w' else (false, w')

unfoldable pub tmp_path_for : FilePath → String → FilePath
tmp_path_for path uuid = record {
  parent = path.parent;
  name = "." <> (path.name <> ("." <> (uuid <> ".tmp")));
}

unfoldable pub stale_path_for : FilePath → String → FilePath
stale_path_for path uuid = record {
  parent = path.parent;
  name = "." <> (path.name <> ("." <> (uuid <> ".stale")));
}

-- `str(path)`
abbrev pub path_text : FilePath → String
path_text p = p.parent <> ("/" <> p.name)

abbrev pub io_error : Dict ContextValue → Bool → Exception
io_error context retryable = hub_error (record {
  error_class = base_error;
  code = io_atomic_write_failed;
  stage = data_stage;
  context = context;
  retryable = retryable;
})

-- `target_dir.exists()`, and whether the source is a directory
abbrev pub exists : Option Entry → Bool
exists none = false
exists (some e) = true

abbrev pub is_dir : Option Entry → Bool
is_dir (some (directory d)) = true
is_dir (some (file b)) = false
is_dir none = false

abbrev pub dirs : FilePath → FilePath → Dict ContextValue
dirs source target =
    ("source_dir", text (path_text source)) ∷ (("target_dir", text (path_text target)) ∷ [])

module _ (fails : ℕ → Bool) (torn : String) where
  -- `mkdir(parents=True, exist_ok=True)` touches no file of the model.
  abbrev pub mkdir : Step
  mkdir = os_call fails (λ files. files) (λ files. files)

  abbrev pub open_file : FilePath → Step
  open_file p = os_call fails (put p (some (file ""))) (λ files. files)

  abbrev pub write : FilePath → String → Step
  write p bytes = os_call fails (put p (some (file bytes))) (put p (some (file torn)))

  abbrev pub fsync : FilePath → Step
  fsync p = os_call fails (λ files. files) (λ files. files)

  abbrev pub replace : FilePath → FilePath → Step
  replace src dst = os_call fails (moved src dst) (λ files. files)

  abbrev pub unlink : FilePath → Step
  unlink p = os_call fails (put p none) (λ files. files)

  abbrev pub write_steps : FilePath → String → FilePath → Step
  write_steps tmp bytes path =
      mkdir then_do open_file tmp then_do write tmp bytes then_do fsync tmp then_do replace tmp path

  unfoldable pub atomic_write_bytes :
      FilePath → String → String → World → Result Exception FilePath × World
  atomic_write_bytes path bytes uuid w =
      let tmp = tmp_path_for path uuid in
      let (done, w') = write_steps tmp bytes path w in
      if done
      then (ok path, w')
      else (err (io_error (("path", text (path_text path)) ∷ []) true), (unlink tmp w').1)

  -- `shutil.rmtree(p, ignore_errors=True)`
  abbrev pub rmtree : FilePath → Step
  rmtree p = os_call fails (put p none) (λ files. files)

  -- The `try` block: whether it was completed, and `moved_stale` when it was left.
  abbrev pub replace_steps : FilePath → FilePath → FilePath → World → Bool × Bool × World
  replace_steps source target stale w =
      let (made, w₁) = mkdir w in
      if not made
      then (false, false, w₁)
      else if exists (w₁.files target)
      then (let (aside, w₂) = replace target stale w₁ in
          if not aside
          then (false, false, w₂)
          else let (done, w₃) = replace source target w₂ in (done, true, w₃))
      else let (done, w₂) = replace source target w₁ in (done, false, w₂)

  -- The `except` clause: the old directory is put back where the target is missing.
  abbrev pub restored : FilePath → FilePath → Bool → World → World
  restored target stale moved_stale w =
      if moved_stale && not (exists (w.files target)) then (replace stale target w).1 else w

  unfoldable pub atomic_replace_dir :
      FilePath → FilePath → String → World → Result Exception FilePath × World
  atomic_replace_dir source target uuid w =
      if not (is_dir (w.files source))
      then (err (io_error (dirs source target) false), w)
      else let stale = stale_path_for target uuid in
        let (done, moved_stale, w') = replace_steps source target stale w in
        if not done
        then (err (io_error (dirs source target) true), restored target stale moved_stale w')
        else (ok target, if moved_stale then (rmtree stale w').1 else w')
