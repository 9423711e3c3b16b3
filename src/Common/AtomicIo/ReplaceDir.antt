-- ===== src/Common/AtomicIo/ReplaceDir.antt =====
-- common/atomic_io.py: what a crash during the replacement of a directory leaves.
use model_hub.Prelude.{
  ℕ, ◌≡◌, ◌⊎◌, ◌∙◌, inl, inr, refl, Bool, true, false, not, none, some, List, [], String, Result,
  ok, err, All, if◌then◌else◌, Bool-cases,
}
use model_hub.Common.Errors.{Exception}
use model_hub.Common.AtomicIo.{
  FilePath, path_eq, Entry, directory, Files, put, moved, World, became, stale_path_for,
  atomic_replace_dir, replace, rmtree, replace_steps, restored, exists, is_dir, io_error, dirs,
}
use model_hub.Common.AtomicIo.Steps.{Ends, os_call-Ends}
use model_hub.Common.AtomicIo.Paths.{path_eq_sym, path_eq_refl, stale_path_for-differs}

-- Neither directory is lost: the old one stands at the target, or beside it under the stale name,
-- while the new one is still at the source; or the new one stands at the target.
abbrev pub KeepsBoth : FilePath → FilePath → FilePath → Entry → Entry → Files → Type 0
KeepsBoth source target stale new old files =
    (((files target ≡ some old) ⊎ ((files target ≡ none) × (files stale ≡ some old)))
      × (files source ≡ some new))
    ⊎ (files target ≡ some new)

-- How the replacement ended.
abbrev pub ReplaceEnds :
    FilePath → FilePath → FilePath → Entry → Entry → Result Exception FilePath × World → Type 0
ReplaceEnds source target stale new old (ok p, w) = (p ≡ target) × (w.files target ≡ some new)
ReplaceEnds source target stale new old (err e, w) =
    ((w.files target ≡ some old) ⊎ ((w.files target ≡ none) × (w.files stale ≡ some old)))
    × (w.files source ≡ some new)

module _ (fails : ℕ → Bool) (torn : String) (source target : FilePath) (uuid : String)
    (new old : Entry) (source-target : path_eq source target ≡ false)
    (source-stale : path_eq source (stale_path_for target uuid) ≡ false) where
  abbrev stale : FilePath
  stale = stale_path_for target uuid

  abbrev Keeps : Files → Type 0
  Keeps = KeepsBoth source target stale new old

  -- The old directory at the target.
  abbrev InPlace : World → Type 0
  InPlace w = (w.files target ≡ some old) × (w.files source ≡ some new) × All Keeps w.passed

  -- The old directory under the stale name, and nothing at the target.
  abbrev Aside : World → Type 0
  Aside w =
      (w.files target ≡ none)
      × (w.files stale ≡ some old)
      × (w.files source ≡ some new)
      × All Keeps w.passed

  -- The new directory at the target.
  abbrev Replaced : World → Type 0
  Replaced w = (w.files target ≡ some new) × All Keeps w.passed

  target-stale : path_eq target stale ≡ false
  target-stale = stale_path_for-differs target uuid

  in_place :
      (files : Files) (w : World)
      → files target ≡ some old
      → files source ≡ some new
      → All Keeps w.passed
      → InPlace (became files w)
  in_place files w t s h = (t, s, (inl (inl t, s), h))

  aside :
      (files : Files) (w : World)
      → files target ≡ none
      → files stale ≡ some old
      → files source ≡ some new
      → All Keeps w.passed
      → Aside (became files w)
  aside files w t o s h = (t, o, s, (inl (inr (t, o), s), h))

  -- What stands at another path stays there.
  moved_other :
      (a b p : FilePath) (files : Files)
      → path_eq p a ≡ false
      → path_eq p b ≡ false
      → moved a b files p ≡ files p
  moved_other a b p files h k = rw (h, k) refl

  moved_to : (a b : FilePath) (files : Files) → path_eq b a ≡ false → moved a b files b ≡ files a
  moved_to a b files h = rw (h, path_eq_refl b) refl

  moved_from : (a b : FilePath) (files : Files) → moved a b files a ≡ none
  moved_from a b files = rw (path_eq_refl a) refl

  set-Aside : (w : World) → InPlace w → Ends Aside InPlace (replace fails torn target stale w)
  set-Aside w (t, s, h) =
      os_call-Ends fails Aside InPlace (moved target stale) (λ files. files) w
        (aside (moved target stale w.files) w (moved_from target stale w.files)
          (moved_to target stale w.files (path_eq_sym target stale target-stale) ∙ t)
          (moved_other target stale source w.files source-target source-stale ∙ s) h)
        (in_place w.files w t s h)

  bring_new : (w : World) → Aside w → Ends Replaced Aside (replace fails torn source target w)
  bring_new w (t, o, s, h) =
      let there = moved_to source target w.files (path_eq_sym source target source-target) ∙ s in
      os_call-Ends fails Replaced Aside (moved source target) (λ files. files) w
        (there, (inr there, h)) (aside w.files w t o s h)

  put_back : (w : World) → Aside w → Ends InPlace Aside (replace fails torn stale target w)
  put_back w (t, o, s, h) =
      os_call-Ends fails InPlace Aside (moved stale target) (λ files. files) w
        (in_place (moved stale target w.files) w (moved_to stale target w.files target-stale ∙ o)
          (moved_other stale target source w.files source-stale source-target ∙ s) h)
        (aside w.files w t o s h)

  -- What the `try` block leaves, by whether it was completed and by `moved_stale`.
  abbrev TryEnds : Bool × Bool × World → Type 0
  TryEnds (true, moved_stale, w) = Replaced w
  TryEnds (false, true, w) = Aside w
  TryEnds (false, false, w) = InPlace w

  after-Aside :
      (r : Bool × World)
      → Ends Aside InPlace r
      → TryEnds (
          let (made, w₂) = r in
          if not made
          then (false, false, w₂)
          else let (done, w₃) = replace fails torn source target w₂ in (done, true, w₃))
  after-Aside (false, w) h = h
  after-Aside (true, w) h = last (replace fails torn source target w) (bring_new w h)
    where
      last :
          (r : Bool × World)
          → Ends Replaced Aside r
          → TryEnds (let (done, w₃) = r in (done, true, w₃))
      last (true, w) h = h
      last (false, w) h = h

  replace_steps-TryEnds :
      (w : World) → InPlace w → TryEnds (replace_steps fails torn source target stale w)
  replace_steps-TryEnds w (t, s, h) = elim (Bool-cases (fails w.calls)) [
    | inl e ↦ rw e (in_place w.files w t s h)
    | inr e ↦
        let there : exists (w.files target) ≡ true = rw t refl in
        rw (e, there)
          (after-Aside (replace fails torn target stale (became w.files w))
            (set-Aside (became w.files w) (in_place w.files w t s h)))
  ]

  -- The pieces that the result is put together from.
  restored-KeepsOld :
      (moved_stale : Bool) (w : World)
      → TryEnds (false, moved_stale, w)
      → let w' = restored fails torn target stale moved_stale w in
        All Keeps w'.passed
        × ReplaceEnds source target stale new old (err (io_error (dirs source target) true), w')
  restored-KeepsOld false w (t, s, h) = (h, (inl t, s))
  restored-KeepsOld true w (t, o, s, h) =
      let missing : exists (w.files target) ≡ false = rw t refl in
      rw missing (last (replace fails torn stale target w) (put_back w (t, o, s, h)))
    where
      last :
          (r : Bool × World)
          → Ends InPlace Aside r
          → All Keeps r.1.passed
            × ReplaceEnds source target stale new old
                (err (io_error (dirs source target) true), r.1)
      last (true, w) (t, s, h) = (h, (inl t, s))
      last (false, w) (t, o, s, h) = (h, (inr (t, o), s))

  swept : (w : World) → Replaced w → Replaced (rmtree fails torn stale w).1
  swept w (t, h) = elim (Bool-cases (fails w.calls)) [
    | inl e ↦ rw e (t, (inr t, h))
    | inr e ↦
        let kept : put stale none w.files target ≡ some new = rw target-stale t in
        rw e (kept, (inr kept, h))
  ]

  abbrev Safe : Result Exception FilePath × World → Type 0
  Safe r = All Keeps r.1.passed × ReplaceEnds source target stale new old r

  atomic_replace_dir-Safe :
      (w : World)
      → is_dir (some new) ≡ true
      → InPlace w
      → Safe (atomic_replace_dir fails torn source target uuid w)
  unfolding atomic_replace_dir
  atomic_replace_dir-Safe w d (t, s, h) =
      let dir : is_dir (w.files source) ≡ true = rw s d in
      rw dir
        (last (replace_steps fails torn source target stale w) (replace_steps-TryEnds w (t, s, h)))
    where
      last :
          (r : Bool × Bool × World)
          → TryEnds r
          → Safe (
              let (done, moved_stale, w') = r in
              if not done
              then (
                err (io_error (dirs source target) true),
                restored fails torn target stale moved_stale w',
              )
              else (ok target, if moved_stale then (rmtree fails torn stale w').1 else w'))
      last (true, false, w) (t, h) = (h, (refl, t))
      last (true, true, w) r = let (t, h) = swept w r in (h, (refl, t))
      last (false, moved_stale, w) r = restored-KeepsOld moved_stale w r

-- At every state that the files pass through while a directory replaces what stands at the target,
-- whichever calls of the operating system fail, neither is lost: the old entry stands at the target
-- or under the stale name with the new directory still at the source, or the new one stands at the
-- target. When the replacement returns the target holds the new directory; when it raises, the old
-- entry is at the target or under the stale name, and the new directory at the source. The source
-- is neither the target nor the stale name.
pub atomic_replace_dir_crash :
    (fails : ℕ → Bool) (torn : String) (source target : FilePath) (uuid : String)
    (d : List (String × String)) (old : Entry) (files : Files) (calls : ℕ)
    → path_eq source target ≡ false
    → path_eq source (stale_path_for target uuid) ≡ false
    → files source ≡ some (directory d)
    → files target ≡ some old
    → let r =
        atomic_replace_dir fails torn source target uuid
          (record { files = files; passed = []; calls = calls }) in
      All (KeepsBoth source target (stale_path_for target uuid) (directory d) old) r.1.passed
      × ReplaceEnds source target (stale_path_for target uuid) (directory d) old r
atomic_replace_dir_crash fails torn source target uuid d old files calls st ss s t =
    atomic_replace_dir-Safe fails torn source target uuid (directory d) old st ss
      (record { files = files; passed = []; calls = calls }) refl (t, s, tt)
