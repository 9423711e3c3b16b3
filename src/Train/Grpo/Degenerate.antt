-- ===== src/Train/Grpo/Degenerate.antt =====
-- train/grpo/group_diagnostics.py: when a group is degenerate.
use model_hub.Prelude.{
  ℕ, ◌+◌, ◌≤◌, ◌≡◌, ◌≢◌, ◌↔◌, ◌∙◌, sym, inl, inr, refl, true, false, some, List, [], ◌∷◌, length,
  In, ◌==◌, arith, Bool-cases, Option-cases,
}
use model_hub.Train.Grpo.{
  RolloutReward, RolloutGroup, diagnose_group, scored, all_same, degenerate_reason_of, is_some,
}

-- A rollout of the group has the reward x.
abbrev pub HasReward : List RolloutReward → ℕ → Type 0
HasReward rs x = (r : RolloutReward) × In r rs × (r.reward ≡ some x)

-- Two rollouts of the group have different rewards.
abbrev pub RewardsDiffer : RolloutGroup → Type 0
RewardsDiffer group = (x y : ℕ) × HasReward group.rewards x × HasReward group.rewards y × (x ≢ y)

scored-In : (rs : List RolloutReward) (x : ℕ) → In x (scored rs) ↔ HasReward rs x
unfolding scored
scored-In [] x = (λ h. elim h [ ], λ h. elim h.1 [ ])
scored-In (r ∷ rs) x =
    let ih = scored-In rs x in
    elim (Option-cases r.reward) [
      | inl e ↦ simp e (
        λ h. let (s, m, w) = ih.0 h in (s, inr m, w),
        λ (s, m, w). elim m [ inl same ↦ absurd (ground arith) | inr m ↦ ih.1 (s, m, w) ],
      )
      | inr (y, e) ↦ simp e (
        λ h. elim h [
          | inl same ↦ (r, inl refl, ground arith)
          | inr m ↦ let (s, m, w) = ih.0 m in (s, inr m, w)
        ],
        λ (s, m, w). elim m [ inl same ↦ inl (ground arith) | inr m ↦ inr (ih.1 (s, m, w)) ],
      )
    ]

length-scored : (rs : List RolloutReward) → length (scored rs) ≤ length rs
unfolding scored
length-scored [] = omega arith
length-scored (r ∷ rs) = ground (arith, length-scored rs)

-- A list whose elements are not all x has another element.
another : (x : ℕ) (xs : List ℕ) → all_same x xs ≡ false → (y : ℕ) × In y xs × (x ≢ y)
unfolding all_same
another x [] h = cc
another x (y ∷ ys) h = elim (Bool-cases (y == x)) [
  | inl e ↦ let (z, m, w) = another x ys (ground arith) in (z, inr m, w)
  | inr e ↦ (y, inl refl, λ same. absurd (ground arith))
]

all_same-eq : (x y : ℕ) (xs : List ℕ) → all_same x xs ≡ true → In y xs → x ≡ y
unfolding all_same
all_same-eq x y [] h m = elim m [ ]
all_same-eq x y (z ∷ zs) h m = elim m [
  | inl same ↦ ground arith
  | inr m ↦ all_same-eq x y zs (ground arith) m
]

different_scores :
    (xs : List ℕ)
    → (is_some (degenerate_reason_of xs) ≡ false) ↔ ((x y : ℕ) × In x xs × In y xs × (x ≢ y))
different_scores [] = (λ h. cc, λ h. elim h.2 [ ])
different_scores (x ∷ xs) = elim (Bool-cases (all_same x xs)) [
  | inl e ↦ rw e (
    λ h. cc,
    λ (a, b, m, n, w).
        let here : (c : ℕ) → In c (x ∷ xs) → x ≡ c =
          λ c m. elim m [ inl same ↦ sym same | inr m ↦ all_same-eq x c xs e m ] in
        absurd (w (sym (here a m) ∙ here b n)),
  )
  | inr e ↦ rw e (λ h. let (y, m, w) = another x xs e in (x, y, inl refl, inr m, w), λ h. refl)
]

-- A group counts as not degenerate exactly when two of its rollouts have different rewards; the
-- masked rollouts and the scored ones make up the group.
pub diagnose_group_degenerate :
    (group : RolloutGroup)
    → (((diagnose_group group).is_degenerate ≡ false) ↔ RewardsDiffer group)
      × ((diagnose_group group).masked_count + length (diagnose_group group).scored_rewards
          ≡ length group.rewards)
unfolding diagnose_group
diagnose_group_degenerate group =
    let spec = different_scores (scored group.rewards) in
    (
      (
        λ h.
            let (x, y, m, n, w) = spec.0 h in
            (x, y, (scored-In group.rewards x).0 m, (scored-In group.rewards y).0 n, w),
        λ (x, y, m, n, w).
            spec.1 (x, y, (scored-In group.rewards x).1 m, (scored-In group.rewards y).1 n, w),
      ),
      ground (arith, length-scored group.rewards),
    )
