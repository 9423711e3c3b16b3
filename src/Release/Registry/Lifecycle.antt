-- ===== src/Release/Registry/Lifecycle.antt =====
-- A model is deployed only after a verdict of the admission gate that passed it.
use model_hub.Prelude.{
  ◌≡◌, refl, inl, inr, true, Option, none, some, List, [], ◌∷◌, String, ok, err, arith,
  Option-cases, Bool-cases, All,
}
use mathlib.Core.Path.{subst}
use mathlib.Core.Option.{some-injective}
use model_hub.Gate.Types.{GateDecision, decision}
use model_hub.Gate.Checks.{Checked}
use model_hub.Release.Health.{HealthDetail}
use model_hub.Release.Registry.{
  ModelStatus, RegistryEntry, ModelRegistry, get, write, is_for, Written, register_candidate,
  record_gate_verdict, mark_deployed, mark_rolled_back, status_of, is_approved, is_deployed,
}

-- The verdict that an entry keeps, as its status demands.
abbrev pub Judged : ModelStatus → Option (List Checked) → Type 0
Judged ModelStatus.candidate results = results ≡ none
Judged ModelStatus.rejected none = ⊥
Judged ModelStatus.rejected (some results) = decision results ≡ GateDecision.reject
Judged _ none = ⊥
Judged _ (some results) = decision results ≡ GateDecision.pass

-- A candidate has no verdict, a rejected model keeps one that rejects, and a model that is
-- approved, deployed or rolled back keeps one that passes.
abbrev pub IsJudged : RegistryEntry → Type 0
IsJudged e = Judged e.status e.gate_results

get-All :
    (P : RegistryEntry → Type 0) (m v : String) (reg : ModelRegistry) {e : RegistryEntry}
    → All P reg
    → get m v reg ≡ some e
    → P e
unfolding get
get-All P m v [] h g = cc
get-All P m v (x ∷ xs) {e} h g = elim (Bool-cases (is_for m v x)) [
  | inl t ↦ subst P (some-injective x e (rw (t, get) at g)) h.0
  | inr f ↦ get-All P m v xs h.1 (rw (f, get) at g)
]

write-All :
    (P : RegistryEntry → Type 0) (e : RegistryEntry) (reg : ModelRegistry)
    → P e
    → All P reg
    → All P (write e reg)
unfolding write
write-All P e [] p h = (p, tt)
write-All P e (x ∷ xs) p h = elim (Bool-cases (is_for e.model_id e.version x)) [
  | inl t ↦ rw (t, write) (p, h.1)
  | inr f ↦ rw (f, write) (h.0, write-All P e xs p h.1)
]

-- What an operation that succeeds leaves; one that raises leaves the registry alone.
abbrev Leaves : (ModelRegistry → Type 0) → Written → Type 0
Leaves Q (ok (e, reg)) = Q reg
Leaves Q (err x) = Unit

abbrev pub AllJudged : ModelRegistry → Type 0
AllJudged reg = All IsJudged reg

register_candidate-AllJudged :
    (now m v run_id : String) (reg : ModelRegistry)
    → AllJudged reg
    → Leaves AllJudged (register_candidate now m v run_id reg)
unfolding register_candidate
register_candidate-AllJudged now m v run_id reg h = elim (Option-cases (get m v reg)) [
  | inl q ↦ rw (q, register_candidate) (write-All IsJudged _ reg refl h)
  | inr (e, q) ↦ rw (q, register_candidate) tt
]

verdict-IsJudged :
    (e : RegistryEntry) (results : List Checked)
    → IsJudged (record e { status = status_of (decision results); gate_results = some results })
unfolding decision
verdict-IsJudged e results = ground arith

record_gate_verdict-AllJudged :
    (m v : String) (results : List Checked) (reg : ModelRegistry)
    → AllJudged reg
    → Leaves AllJudged (record_gate_verdict m v results reg)
unfolding record_gate_verdict
record_gate_verdict-AllJudged m v results reg h = elim (Option-cases (get m v reg)) [
  | inl q ↦ rw (q, record_gate_verdict) tt
  | inr (e, q) ↦
      rw (q, record_gate_verdict) (write-All IsJudged _ reg (verdict-IsJudged e results) h)
]

mark_deployed-AllJudged :
    (m v : String) (reg : ModelRegistry) → AllJudged reg → Leaves AllJudged (mark_deployed m v reg)
unfolding mark_deployed
mark_deployed-AllJudged m v reg h = elim (Option-cases (get m v reg)) [
  | inl q ↦ rw (q, mark_deployed) tt
  | inr (e, q) ↦
      let j : IsJudged e = get-All IsJudged m v reg h q in
      elim (Bool-cases (is_approved e.status)) [
        | inl t ↦
            rw (q, mark_deployed)
              (rw (t, mark_deployed) (write-All IsJudged _ reg (promoted e t j) h))
        | inr f ↦ rw (q, mark_deployed) (rw (f, mark_deployed) tt)
      ]
]
  where
    promoted :
        (e : RegistryEntry)
        → is_approved e.status ≡ true
        → IsJudged e
        → IsJudged (record e { status = ModelStatus.deployed })
    promoted e t j = ground arith

mark_rolled_back-AllJudged :
    (m v : String) (notes : Option HealthDetail) (reg : ModelRegistry)
    → AllJudged reg
    → Leaves AllJudged (mark_rolled_back m v notes reg)
unfolding mark_rolled_back
mark_rolled_back-AllJudged m v notes reg h = elim (Option-cases (get m v reg)) [
  | inl q ↦ rw (q, mark_rolled_back) tt
  | inr (e, q) ↦
      let j : IsJudged e = get-All IsJudged m v reg h q in
      elim (Bool-cases (is_deployed e.status)) [
        | inl t ↦
            rw (q, mark_rolled_back)
              (rw (t, mark_rolled_back) (write-All IsJudged _ reg (withdrawn e t j) h))
        | inr f ↦ rw (q, mark_rolled_back) (rw (f, mark_rolled_back) tt)
      ]
]
  where
    withdrawn :
        (e : RegistryEntry)
        → is_deployed e.status ≡ true
        → IsJudged e
        → IsJudged (record e { status = ModelStatus.rolled_back; notes = notes })
    withdrawn e t j = ground arith

-- The calls of a registry.
pub data RegistryCall : Type 0 where
  register : String → String → String → String → RegistryCall
  judge : String → String → List Checked → RegistryCall
  deploy : String → String → RegistryCall
  roll_back : String → String → Option HealthDetail → RegistryCall

-- The registry after a call that returns, and as it was after one that raises.
abbrev pub settled : ModelRegistry → Written → ModelRegistry
settled reg (ok (e, reg')) = reg'
settled reg (err x) = reg

pub run_call : RegistryCall → ModelRegistry → ModelRegistry
run_call (register now m v run_id) reg = settled reg (register_candidate now m v run_id reg)
run_call (judge m v results) reg = settled reg (record_gate_verdict m v results reg)
run_call (deploy m v) reg = settled reg (mark_deployed m v reg)
run_call (roll_back m v notes) reg = settled reg (mark_rolled_back m v notes reg)

pub run_calls : List RegistryCall → ModelRegistry → ModelRegistry
unfolding run_call
run_calls [] reg = reg
run_calls (c ∷ cs) reg = run_calls cs (run_call c reg)

settled-AllJudged :
    (reg : ModelRegistry) (w : Written)
    → AllJudged reg
    → Leaves AllJudged w
    → AllJudged (settled reg w)
settled-AllJudged reg (ok (e, reg')) h k = k
settled-AllJudged reg (err x) h k = h

run_call-AllJudged :
    (c : RegistryCall) (reg : ModelRegistry) → AllJudged reg → AllJudged (run_call c reg)
unfolding run_call
run_call-AllJudged (register now m v run_id) reg h =
    settled-AllJudged reg _ h (register_candidate-AllJudged now m v run_id reg h)
run_call-AllJudged (judge m v results) reg h =
    settled-AllJudged reg _ h (record_gate_verdict-AllJudged m v results reg h)
run_call-AllJudged (deploy m v) reg h =
    settled-AllJudged reg _ h (mark_deployed-AllJudged m v reg h)
run_call-AllJudged (roll_back m v notes) reg h =
    settled-AllJudged reg _ h (mark_rolled_back-AllJudged m v notes reg h)

-- After any calls of a registry whose entries are judged (an empty one, say), every entry is: a
-- candidate has no verdict, a rejected model keeps one that rejects, and a model that is approved,
-- deployed or rolled back keeps a verdict that passes.
pub run_calls-AllJudged :
    (cs : List RegistryCall) (reg : ModelRegistry) → AllJudged reg → AllJudged (run_calls cs reg)
unfolding run_calls
run_calls-AllJudged [] reg h = h
run_calls-AllJudged (c ∷ cs) reg h =
    run_calls-AllJudged cs (run_call c reg) (run_call-AllJudged c reg h)
