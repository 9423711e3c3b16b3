-- ===== src/Gate/Types.antt =====
-- gate/types.py. What the text and the metrics of a result report is the type `D`, which differs
-- between the admission gates and the canary's health check.
use model_hub.Prelude.{
  ◌≡◌, refl, ◌≢◌, ◌↔◌, Bool, true, false, Option, none, some, List, [], ◌∷◌, String, str_eq,
  if◌then◌else◌, arith,
}
use model_hub.Prelude.Counting.{any_if, filter_if}

pub data GateDecision : Type 0 where
  pass reject not_applicable : GateDecision

pub record GateResult (D : Type 0) : Type 0 where
  pub gate_name : String
  pub decision : GateDecision
  pub detail : D

abbrev pub is_reject : GateDecision → Bool
is_reject GateDecision.reject = true
is_reject _ = false

module _ {D : Type 0} where
  abbrev pub is_rejected : GateResult D → Bool
  is_rejected g = is_reject g.decision

  -- `GateVerdict.decision` of the verdict with these results
  unfoldable pub decision : List (GateResult D) → GateDecision
  decision results = if any_if is_rejected results then GateDecision.reject else GateDecision.pass

  unfoldable pub rejected_gates : List (GateResult D) → List (GateResult D)
  rejected_gates results = filter_if is_rejected results

  unfoldable pub result_for : String → List (GateResult D) → Option (GateResult D)
  result_for name [] = none
  result_for name (g ∷ gs) = if str_eq g.gate_name name then some g else result_for name gs

  any-rejected : (gs : List (GateResult D)) → any_if is_rejected gs ≡ true → rejected_gates gs ≢ []
  unfolding rejected_gates
  any-rejected [] h = cc
  any-rejected (g ∷ gs) h = ground (arith, any-rejected gs)

  rejected-any : (gs : List (GateResult D)) → any_if is_rejected gs ≡ false → rejected_gates gs ≡ []
  unfolding rejected_gates
  rejected-any [] h = refl
  rejected-any (g ∷ gs) h = ground (arith, rejected-any gs)

  -- A verdict rejects exactly when it lists a rejecting gate, and it never says NOT_APPLICABLE.
  pub decision-rejected_gates :
      (gs : List (GateResult D))
      → ((decision gs ≡ GateDecision.reject) ↔ (rejected_gates gs ≢ []))
        × ((decision gs ≡ GateDecision.pass) ↔ (rejected_gates gs ≡ []))
  unfolding decision
  decision-rejected_gates gs = (
    (λ h. ground (arith, any-rejected gs), λ h. ground (arith, rejected-any gs)),
    (λ h. ground (arith, rejected-any gs), λ h. ground (arith, any-rejected gs)),
  )
