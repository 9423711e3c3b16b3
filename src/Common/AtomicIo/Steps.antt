-- ===== src/Common/AtomicIo/Steps.antt =====
-- common/atomic_io.py: rules for a sequence of calls of the operating system.
use model_hub.Prelude.{ℕ, inl, inr, Bool, true, false, Bool-cases, if◌then◌else◌}
use model_hub.Common.AtomicIo.{Files, World, Step, os_call, became, ◌then_do◌}

-- Q holds where the statements were completed, and R where an `OSError` left them.
abbrev pub Ends : (World → Type 0) → (World → Type 0) → Bool × World → Type 0
Ends Q R (true, w) = Q w
Ends Q R (false, w) = R w

pub os_call-Ends :
    (fails : ℕ → Bool) (Q R : World → Type 0) (success failure : Files → Files) (w : World)
    → Q (became (success w.files) w)
    → R (became (failure w.files) w)
    → Ends Q R (os_call fails success failure w)
os_call-Ends fails Q R success failure w q r = elim (Bool-cases (fails w.calls)) [
  | inl e ↦ rw e r
  | inr e ↦ rw e q
]

pub then_do-Ends :
    (M Q R : World → Type 0) (s t : Step) (w : World)
    → Ends M R (s w)
    → ((w' : World) → M w' → Ends Q R (t w'))
    → Ends Q R ((s then_do t) w)
then_do-Ends M Q R s t w h k = go (s w) h
  where
    go :
        (r : Bool × World)
        → Ends M R r
        → Ends Q R (let (done, w') = r in if done then t w' else (false, w'))
    go (true, w') h = k w' h
    go (false, w') h = h
