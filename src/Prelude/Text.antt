-- ===== src/Prelude/Text.antt =====
-- Equality tests on texts that share a prefix.
use Prim.Native.String.{String, ◌++◌ as ◌<>◌}
use mathlib.Core.Path.{◌≡◌, ap}
use mathlib.Core.Logic.{inl, inr}
use text.Mathlib.TextLemmas.{append_cancel_left, append_cancel_right}
use model_hub.Prelude.Tests.{str_eq, str_eq_iff, Bool-cases}

pub str_eq-append_left : (p s t : String) → str_eq (p <> s) (p <> t) ≡ str_eq s t
str_eq-append_left p s t = elim (Bool-cases (str_eq s t)) [
  | inl e ↦
      rw e ((str_eq_iff (p <> s) (p <> t)).1 (ap (λ (u : String). p <> u) ((str_eq_iff s t).0 e)))
  | inr e ↦ elim (Bool-cases (str_eq (p <> s) (p <> t))) [
    | inl f ↦
        cc ((str_eq_iff s t).1 (append_cancel_left p s t ((str_eq_iff (p <> s) (p <> t)).0 f)))
    | inr f ↦ rw (e, f)
  ]
]

pub str_eq-append_right : (p s t : String) → str_eq (s <> p) (t <> p) ≡ str_eq s t
str_eq-append_right p s t = elim (Bool-cases (str_eq s t)) [
  | inl e ↦
      rw e ((str_eq_iff (s <> p) (t <> p)).1 (ap (λ (u : String). u <> p) ((str_eq_iff s t).0 e)))
  | inr e ↦ elim (Bool-cases (str_eq (s <> p) (t <> p))) [
    | inl f ↦
        cc ((str_eq_iff s t).1 (append_cancel_right s t p ((str_eq_iff (s <> p) (t <> p)).0 f)))
    | inr f ↦ rw (e, f)
  ]
]
