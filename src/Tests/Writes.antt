-- ===== src/Tests/Writes.antt =====
-- Atomic writes on a file system with two entries, where the third call of the system fails.
use model_hub.Prelude.{
  ℕ, ◌≡◌, refl, Bool, false, none, some, List, [], ◌∷◌, String, All, ◌==◌, str_eq, if◌then◌else◌,
}
use model_hub.Common.AtomicIo.{
  FilePath, path_eq, Entry, file, directory, Files, World, stale_path_for, atomic_write_bytes,
  atomic_replace_dir,
}
use model_hub.Common.AtomicIo.WriteBytes.{HoldsEither, WriteEnds, atomic_write_bytes_crash}
use model_hub.Common.AtomicIo.ReplaceDir.{KeepsBoth, ReplaceEnds, atomic_replace_dir_crash}

abbrev third_fails : ℕ → Bool
third_fails n = n == 2

abbrev source : FilePath
source = record { parent = "/runs"; name = "tmp-100" }

abbrev target : FilePath
target = record { parent = "/runs"; name = "checkpoint-100" }

abbrev report_path : FilePath
report_path = record { parent = "/runs"; name = "report.json" }

abbrev old_dir : Entry
old_dir = directory (("optimizer.pt", "old") ∷ [])

abbrev new_files : List (String × String)
new_files = ("optimizer.pt", "new") ∷ []

abbrev disk : Files
disk p =
    if path_eq p source
    then some (directory new_files)
    else if path_eq p target
    then some old_dir
    else none

abbrev start : World
start = record { files = disk; passed = []; calls = 0 }

atomic_write_bytes_crash_example :
    All
      (HoldsEither report_path (disk report_path) (some (file "{}")))
      (atomic_write_bytes third_fails "{" report_path "{}" "4f2a" start).1.passed
    × WriteEnds report_path "{}"
        (disk report_path)
        (atomic_write_bytes third_fails "{" report_path "{}" "4f2a" start)
atomic_write_bytes_crash_example =
    atomic_write_bytes_crash third_fails "{" report_path "{}" "4f2a" disk 0

sources_differ : path_eq source target ≡ false
unfolding str_eq
sources_differ = refl

source_not_stale : path_eq source (stale_path_for target "4f2a") ≡ false
unfolding str_eq stale_path_for
source_not_stale = refl

source_there : disk source ≡ some (directory new_files)
unfolding str_eq
source_there = refl

target_there : disk target ≡ some old_dir
unfolding str_eq
target_there = refl

atomic_replace_dir_crash_example :
    All
      (KeepsBoth source target (stale_path_for target "4f2a") (directory new_files) old_dir)
      (atomic_replace_dir third_fails "" source target "4f2a" start).1.passed
    × ReplaceEnds source target
        (stale_path_for target "4f2a")
        (directory new_files)
        old_dir
        (atomic_replace_dir third_fails "" source target "4f2a" start)
atomic_replace_dir_crash_example =
    atomic_replace_dir_crash third_fails "" source target "4f2a" new_files old_dir disk 0
      sources_differ source_not_stale source_there target_there
