-- ===== src/Common/AtomicIo/Paths.antt =====
-- common/atomic_io.py: the names of the temporary paths differ from the names they are made of.
use model_hub.Prelude.{
  ℕ, suc, ◌+◌, ◌≡◌, refl, ap, inl, inr, true, false, String, ◌<>◌, str_eq, str_eq_iff, str_eq_refl,
  arith, Bool-cases,
}
use text.Mathlib.TextLemmas.{nil-append, cons-append}
use model_hub.Common.AtomicIo.{FilePath, path_eq, tmp_path_for, stale_path_for}

size : String → ℕ
size String.[] = 0
size (String.◌∷◌ c s) = suc (size s)

size-append : (s t : String) → size (s <> t) ≡ size s + size t
unfolding size
size-append String.[] t = rw (nil-append t) (omega arith)
size-append (String.◌∷◌ c s) t = rw (cons-append c s t) (omega (arith, size-append s t))

-- A name with a text around it is another name.
surrounded : (name rest : String) → str_eq name ("." <> (name <> rest)) ≡ false
surrounded name rest = elim (Bool-cases (str_eq name ("." <> (name <> rest)))) [
  | inl e ↦
      let same = ap size ((str_eq_iff name ("." <> (name <> rest))).0 e) in
      let one : size "." ≡ 1 = unfold size in refl in
      absurd (omega (arith, same, one, size-append "." (name <> rest), size-append name rest))
  | inr e ↦ e
]

pub tmp_path_for-differs : (p : FilePath) (uuid : String) → path_eq p (tmp_path_for p uuid) ≡ false
unfolding tmp_path_for
tmp_path_for-differs p uuid = ground (arith, surrounded p.name ("." <> (uuid <> ".tmp")))

pub stale_path_for-differs :
    (p : FilePath) (uuid : String) → path_eq p (stale_path_for p uuid) ≡ false
unfolding stale_path_for
stale_path_for-differs p uuid = ground (arith, surrounded p.name ("." <> (uuid <> ".stale")))

pub path_eq_sym : (p q : FilePath) → path_eq p q ≡ false → path_eq q p ≡ false
path_eq_sym p q h = ground (
  arith,
  str_eq_iff p.parent q.parent,
  str_eq_iff q.parent p.parent,
  str_eq_iff p.name q.name,
  str_eq_iff q.name p.name,
)

pub path_eq_refl : (p : FilePath) → path_eq p p ≡ true
path_eq_refl p = rw (str_eq_refl p.parent, str_eq_refl p.name) refl
