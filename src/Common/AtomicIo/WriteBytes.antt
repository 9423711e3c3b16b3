-- ===== src/Common/AtomicIo/WriteBytes.antt =====
-- common/atomic_io.py: what a crash during an atomic write of a file leaves.
use model_hub.Prelude.{
  ℕ, ◌≡◌, ◌⊎◌, ◌∙◌, inl, inr, refl, Bool, true, false, Option, none, some, [], ◌∷◌, String, Result,
  ok, err, All, if◌then◌else◌, Bool-cases,
}
use model_hub.Common.Errors.{Exception, text}
use model_hub.Common.AtomicIo.{
  FilePath, Entry, file, Files, put, moved, World, became, tmp_path_for, atomic_write_bytes, mkdir,
  open_file, write, fsync, replace, unlink, write_steps, io_error, path_text,
}
use model_hub.Common.AtomicIo.Steps.{Ends, os_call-Ends, then_do-Ends}
use model_hub.Common.AtomicIo.Paths.{path_eq_refl, tmp_path_for-differs}

-- The path holds one of two entries.
abbrev pub HoldsEither : FilePath → Option Entry → Option Entry → Files → Type 0
HoldsEither p old new files = (files p ≡ old) ⊎ (files p ≡ new)

-- How a write of `bytes` ended, by what the path held before.
abbrev pub WriteEnds : FilePath → String → Option Entry → Result Exception FilePath × World → Type 0
WriteEnds path bytes old (ok p, w) = (p ≡ path) × (w.files path ≡ some (file bytes))
WriteEnds path bytes old (err e, w) = w.files path ≡ old

module _ (fails : ℕ → Bool) (torn : String) (path : FilePath) (bytes uuid : String)
    (old : Option Entry) where
  abbrev tmp : FilePath
  tmp = tmp_path_for path uuid

  abbrev Either : Files → Type 0
  Either = HoldsEither path old (some (file bytes))

  -- The path holds the old entry, and held one of the two at every state before.
  abbrev HoldsOld : World → Type 0
  HoldsOld w = (w.files path ≡ old) × All Either w.passed

  abbrev HoldsNew : World → Type 0
  HoldsNew w = (w.files path ≡ some (file bytes)) × All Either w.passed

  -- As before, with all of the bytes in the temporary file.
  abbrev IsWritten : World → Type 0
  IsWritten w = HoldsOld w × (w.files tmp ≡ some (file bytes))

  apart : (e : Option Entry) (files : Files) → put tmp e files path ≡ files path
  apart e files = rw (tmp_path_for-differs path uuid) refl

  became-HoldsOld :
      (files : Files) (w : World) → files path ≡ old → HoldsOld w → HoldsOld (became files w)
  became-HoldsOld files w e h = (e, (inl e, h.1))

  put-HoldsOld :
      (e : Option Entry) (w : World) → HoldsOld w → HoldsOld (became (put tmp e w.files) w)
  put-HoldsOld e w h = became-HoldsOld (put tmp e w.files) w (apart e w.files ∙ h.0) h

  replace-Ends : (w : World) → IsWritten w → Ends HoldsNew HoldsOld (replace fails torn tmp path w)
  replace-Ends w (h, t) =
      let new : moved tmp path w.files path ≡ some (file bytes) =
        apart none (put path (w.files tmp) w.files) ∙ rw (path_eq_refl path) t in
      os_call-Ends fails HoldsNew HoldsOld (moved tmp path) (λ files. files) w (new, (inr new, h.1))
        (became-HoldsOld w.files w h.0 h)

  write_steps-Ends :
      (w : World) → HoldsOld w → Ends HoldsNew HoldsOld (write_steps fails torn tmp bytes path w)
  write_steps-Ends w h =
      then_do-Ends HoldsOld HoldsNew HoldsOld (mkdir fails torn) _ w
        (os_call-Ends fails HoldsOld HoldsOld (λ files. files) (λ files. files) w
          (became-HoldsOld w.files w h.0 h) (became-HoldsOld w.files w h.0 h))
        λ w₁ h₁.
          then_do-Ends HoldsOld HoldsNew HoldsOld (open_file fails torn tmp) _ w₁
            (os_call-Ends fails HoldsOld HoldsOld (put tmp (some (file ""))) (λ files. files) w₁
              (put-HoldsOld (some (file "")) w₁ h₁) (became-HoldsOld w₁.files w₁ h₁.0 h₁))
            λ w₂ h₂.
              then_do-Ends IsWritten HoldsNew HoldsOld (write fails torn tmp bytes) _ w₂
                (os_call-Ends fails IsWritten HoldsOld (put tmp (some (file bytes)))
                  (put tmp (some (file torn))) w₂
                  (put-HoldsOld (some (file bytes)) w₂ h₂, rw (path_eq_refl tmp) refl)
                  (put-HoldsOld (some (file torn)) w₂ h₂))
                λ w₃ h₃.
                  then_do-Ends IsWritten HoldsNew HoldsOld (fsync fails torn tmp) _ w₃
                    (os_call-Ends fails IsWritten HoldsOld (λ files. files) (λ files. files) w₃
                      (became-HoldsOld w₃.files w₃ h₃.0.0 h₃.0, h₃.1)
                      (became-HoldsOld w₃.files w₃ h₃.0.0 h₃.0))
                    λ w₄ h₄. replace-Ends w₄ h₄

  unlink-HoldsOld : (w : World) → HoldsOld w → HoldsOld (unlink fails torn tmp w).1
  unlink-HoldsOld w h = elim (Bool-cases (fails w.calls)) [
    | inl e ↦ rw e (became-HoldsOld w.files w h.0 h)
    | inr e ↦ rw e (put-HoldsOld none w h)
  ]

  abbrev Safe : Result Exception FilePath × World → Type 0
  Safe r = All Either r.1.passed × WriteEnds path bytes old r

  atomic_write_bytes-Safe :
      (w : World) → HoldsOld w → Safe (atomic_write_bytes fails torn path bytes uuid w)
  unfolding atomic_write_bytes
  atomic_write_bytes-Safe w h = go (write_steps fails torn tmp bytes path w) (write_steps-Ends w h)
    where
      go :
          (r : Bool × World)
          → Ends HoldsNew HoldsOld r
          → Safe (
              let (done, w') = r in
              if done then (ok path, w') else (
                err (io_error (("path", text (path_text path)) ∷ []) true),
                (unlink fails torn tmp w').1,
              ))
      go (true, w') h = (h.1, (refl, h.0))
      go (false, w') h = let k = unlink-HoldsOld w' h in (k.1, k.0)

module _ (fails : ℕ → Bool) (torn : String) (path : FilePath) (bytes uuid : String) where
  -- At every state that the files pass through while `bytes` is written, whichever calls of the
  -- operating system fail, the path holds what it held before or all of `bytes`; when the write
  -- returns it holds `bytes`, and when it raises it holds what it held before.
  pub atomic_write_bytes_crash :
      (files : Files) (calls : ℕ)
      → let r =
          atomic_write_bytes fails torn path bytes uuid
            (record { files = files; passed = []; calls = calls }) in
        All (HoldsEither path (files path) (some (file bytes))) r.1.passed
        × WriteEnds path bytes (files path) r
  atomic_write_bytes_crash files calls =
      atomic_write_bytes-Safe fails torn path bytes uuid (files path)
        (record { files = files; passed = []; calls = calls }) (refl, tt)
