-- ===== src/Release/Registry/Deployed.antt =====
-- `current_deployed`, and what it makes of two deployed versions of one model.
use model_hub.Prelude.{
  ◌≤◌, ◌≡◌, ◌↔◌, refl, inl, inr, true, false, none, some, List, [], ◌∷◌, String, ok, err, arith,
  str_eq, str_eq_iff, Bool-cases, length,
}
use mathlib.Core.Option.{some-injective}
use model_hub.Prelude.Counting.{count_if, filter_if, length-filter_if}
use model_hub.Common.Errors.{value_error}
use model_hub.Release.Registry.{
  ModelStatus, RegistryEntry, ModelRegistry, get, write, is_for, mark_deployed, current_deployed,
  deployed_for, single,
}

current_deployed_many :
    (m : String) (reg : ModelRegistry)
    → 2 ≤ count_if (deployed_for m) reg
    → current_deployed m reg ≡ err value_error
unfolding current_deployed
current_deployed_many m reg h =
    many (filter_if (deployed_for m) reg) (omega (arith, length-filter_if (deployed_for m) reg))
  where
    many : (l : List RegistryEntry) → 2 ≤ length l → single l ≡ err value_error
    many [] h = absurd (omega arith)
    many (e ∷ []) h = absurd (omega arith)
    many (e ∷ (e' ∷ es)) h = refl

module _ (m v1 v2 : String) (different : str_eq v1 v2 ≡ false) where
  deployed_counted :
      (reg : ModelRegistry) (e : RegistryEntry)
      → get m v1 reg ≡ some e
      → e.status ≡ ModelStatus.deployed
      → 1 ≤ count_if (deployed_for m) reg
  unfolding get
  deployed_counted [] e g d = cc
  deployed_counted (x ∷ xs) e g d = ground (arith, deployed_counted xs e)

  write_counted :
      (reg : ModelRegistry) (new : RegistryEntry)
      → str_eq new.model_id m ≡ true
      → new.status ≡ ModelStatus.deployed
      → 1 ≤ count_if (deployed_for m) (write new reg)
  unfolding write
  write_counted [] new nm nd = ground arith
  write_counted (x ∷ xs) new nm nd = ground (arith, write_counted xs new)

  not_both : (x : RegistryEntry) → str_eq x.version v2 ≡ true → is_for m v1 x ≡ false
  not_both x h = ground (arith, str_eq_iff x.version v2, str_eq_iff x.version v1, str_eq_iff v1 v2)

  -- Writing the entry of another version keeps the deployed one, and counts the new one.
  both_counted :
      (reg : ModelRegistry) (e new : RegistryEntry)
      → get m v1 reg ≡ some e
      → e.status ≡ ModelStatus.deployed
      → new.model_id ≡ m
      → new.version ≡ v2
      → new.status ≡ ModelStatus.deployed
      → 2 ≤ count_if (deployed_for m) (write new reg)
  unfolding get write
  both_counted [] e new g d nm nv nd = cc
  both_counted (x ∷ xs) e new g d nm nv nd =
      let same : str_eq new.model_id m ≡ true = (str_eq_iff new.model_id m).1 nm in
      elim (Bool-cases (is_for new.model_id new.version x)) [
        | inl t ↦
            let other : is_for m v1 x ≡ false = not_both x (ground arith) in
            rw (t, write) (ground (arith, deployed_counted xs e (rw (other, get) at g) d))
        | inr f ↦ elim (Bool-cases (is_for m v1 x)) [
          | inl t ↦ rw (f, write) (ground (arith, write_counted xs new same nd))
          | inr f' ↦
              rw (f, write) (ground (arith, both_counted xs e new (rw (f', get) at g) d nm nv nd))
        ]
      ]

get_ids :
    (m v : String) (reg : ModelRegistry) {e : RegistryEntry}
    → get m v reg ≡ some e
    → (e.model_id ≡ m) × (e.version ≡ v)
unfolding get
get_ids m v [] g = cc
get_ids m v (x ∷ xs) {e} g = elim (Bool-cases (is_for m v x)) [
  | inl t ↦
      let same : x ≡ e = some-injective x e (rw (t, get) at g) in
      ground (arith, str_eq_iff x.model_id m, str_eq_iff x.version v)
  | inr f ↦ get_ids m v xs (rw (f, get) at g)
]

-- Where one version of a model is deployed and another is approved, `mark_deployed` of the second
-- succeeds, and leaves a registry in which `current_deployed` of that model raises.
pub mark_deployed_twice :
    (m v1 v2 : String) (reg : ModelRegistry) (e1 e2 : RegistryEntry)
    → str_eq v1 v2 ≡ false
    → get m v1 reg ≡ some e1
    → e1.status ≡ ModelStatus.deployed
    → get m v2 reg ≡ some e2
    → e2.status ≡ ModelStatus.approved
    → let new = record e2 { status = ModelStatus.deployed } in
      (mark_deployed m v2 reg ≡ ok (new, write new reg))
      × (current_deployed m (write new reg) ≡ err value_error)
unfolding mark_deployed
mark_deployed_twice m v1 v2 reg e1 e2 ne g1 d1 g2 a2 =
    let (same_m, same_v) = get_ids m v2 reg g2 in
    let new = record e2 { status = ModelStatus.deployed } in
    (
      rw (g2, mark_deployed) (rw (a2, mark_deployed) refl),
      current_deployed_many m (write new reg)
          (both_counted m v1 v2 ne reg e1 new g1 d1 same_m same_v refl),
    )

-- `current_deployed` returns an entry exactly when it is the one deployed entry of the model, none
-- exactly when there is no such entry, and raises exactly when there are two or more.
pub current_deployed_counts :
    (m : String) (reg : ModelRegistry)
    → ((current_deployed m reg ≡ err value_error) ↔ (2 ≤ count_if (deployed_for m) reg))
      × ((current_deployed m reg ≡ ok none) ↔ (count_if (deployed_for m) reg ≡ 0))
      × ((e : RegistryEntry)
          → (current_deployed m reg ≡ ok (some e)) ↔ (filter_if (deployed_for m) reg ≡ e ∷ []))
unfolding current_deployed
current_deployed_counts m reg =
    rw (← length-filter_if (deployed_for m) reg) (counts (filter_if (deployed_for m) reg))
  where
    counts :
        (l : List RegistryEntry)
        → ((single l ≡ err value_error) ↔ (2 ≤ length l))
          × ((single l ≡ ok none) ↔ (length l ≡ 0))
          × ((e : RegistryEntry) → (single l ≡ ok (some e)) ↔ (l ≡ e ∷ []))
    counts [] =
        ((λ h. cc, λ h. absurd (omega arith)), (λ h. refl, λ h. refl), λ e. (λ h. cc, λ h. cc))
    counts (x ∷ []) = (
      (λ h. cc, λ h. absurd (omega arith)),
      (λ h. cc, λ h. absurd (omega arith)),
      λ e. (λ h. cc, λ h. cc),
    )
    counts (x ∷ (y ∷ l)) = (
      (λ h. omega arith, λ h. refl),
      (λ h. cc, λ h. absurd (omega arith)),
      λ e. (λ h. cc, λ h. cc),
    )
