-- ===== src/Release/Canary/Stages.antt =====
-- The rollout as a state machine, and the traffic that it sends to the canary.
use model_hub.Prelude.{
  ℕ, zero, suc, ◌+◌, ◌≤◌, ◌<◌, ◌≡◌, refl, true, false, not, some, List, [], ◌∷◌, String, ok, arith,
  length, get_elem?, get_elem?_total,
}
use model_hub.Prelude.Counting.{any_if}
use model_hub.Release.Canary.{
  CanaryConfig, model_post_init, is_ascending, last_stage, canary, route_canary_traffic,
  RolloutStatus, CanaryRolloutState, current_percentage, start_rollout, record_canary_request,
  try_advance_stage, mark_rolled_back, is_percentage,
}

-- What the configuration's checks promise.
pub record IsValidConfig (config : CanaryConfig) : Type 0 where
  pub some_stage : 0 < length config.stages
  pub in_order : is_ascending config.stages ≡ true
  pub ends_full : last_stage config.stages ≡ 100
  pub percentages : any_if (λ s. not (is_percentage s)) config.stages ≡ false

pub model_post_init-IsValidConfig :
    (config : CanaryConfig) {c : CanaryConfig}
    → model_post_init config ≡ ok c
    → IsValidConfig config
unfolding model_post_init
model_post_init-IsValidConfig config h = ground arith

-- A key that is served by the canary at some percentage stays with it at any higher one.
pub route_canary_traffic_sticky :
    (digest : String → ℕ) (key : String) (p q : ℕ)
    → p ≤ q
    → q ≤ 100
    → route_canary_traffic digest key p ≡ ok canary
    → route_canary_traffic digest key q ≡ ok canary
unfolding route_canary_traffic
route_canary_traffic_sticky digest key p q h k e = ground arith

-- One step of a rollout.
pub data RolloutStep (config : CanaryConfig)
    : CanaryRolloutState → CanaryRolloutState → Type 0 where
  requested : {s t : CanaryRolloutState} → record_canary_request s ≡ ok t → RolloutStep config s t
  advanced : (s : CanaryRolloutState) → RolloutStep config s (try_advance_stage s config)
  withdrawn : (s : CanaryRolloutState) → RolloutStep config s (mark_rolled_back s)

pub data Reaches (config : CanaryConfig) : CanaryRolloutState → CanaryRolloutState → Type 0 where
  here : {s : CanaryRolloutState} → Reaches config s s
  next :
      {s t u : CanaryRolloutState}
      → Reaches config s t
      → RolloutStep config t u
      → Reaches config s u

-- The stage is one of the configuration's, and a completed rollout has served its last stage with
-- enough requests.
pub record IsOnTrack (config : CanaryConfig) (s : CanaryRolloutState) : Type 0 where
  pub on_stage : s.stage_index < length config.stages
  pub finished :
      s.status ≡ RolloutStatus.completed
      → (s.stage_index + 1 ≡ length config.stages)
        × (config.min_requests_per_stage ≤ s.requests_at_current_stage)

step-IsOnTrack :
    {config : CanaryConfig} {s t : CanaryRolloutState}
    → RolloutStep config s t
    → IsOnTrack config s
    → IsOnTrack config t
unfolding record_canary_request try_advance_stage mark_rolled_back
step-IsOnTrack (requested e) h = ground arith
step-IsOnTrack (advanced s) h = ground arith
step-IsOnTrack (withdrawn s) h = ground arith

Reaches-IsOnTrack :
    {config : CanaryConfig} {s t : CanaryRolloutState}
    → IsOnTrack config s
    → Reaches config s t
    → IsOnTrack config t
Reaches-IsOnTrack h here = h
Reaches-IsOnTrack h (next r st) = step-IsOnTrack st (Reaches-IsOnTrack h r)

start_rollout-IsOnTrack :
    (config : CanaryConfig) → 0 < length config.stages → IsOnTrack config start_rollout
unfolding start_rollout
start_rollout-IsOnTrack config h = ground arith

percentage_in_range :
    (l : List ℕ) (i p : ℕ)
    → any_if (λ s. not (is_percentage s)) l ≡ false
    → get_elem? l i ≡ some p
    → (0 < p) × (p ≤ 100)
percentage_in_range [] i p h e = cc
percentage_in_range (a ∷ l) zero p h e = ground arith
percentage_in_range (a ∷ l) (suc i) p h e = percentage_in_range l i p (ground arith) e

last-get_elem? : (l : List ℕ) (i : ℕ) → i + 1 ≡ length l → get_elem? l i ≡ some (last_stage l)
last-get_elem? [] i h = absurd (omega arith)
last-get_elem? (a ∷ []) zero h = refl
last-get_elem? (a ∷ []) (suc i) h = absurd (omega arith)
last-get_elem? (a ∷ (b ∷ l)) zero h = absurd (omega arith)
last-get_elem? (a ∷ (b ∷ l)) (suc i) h = last-get_elem? (b ∷ l) i (omega arith)

-- Under a valid configuration, every state that a rollout reaches from its start has a percentage,
-- from 1 to 100, and a completed one has sent all traffic to the canary, and as many requests at
-- that stage as the configuration asks for.
pub rollout_percentage :
    (config : CanaryConfig) (s : CanaryRolloutState)
    → IsValidConfig config
    → Reaches config start_rollout s
    → (p : ℕ) × (current_percentage s config ≡ ok p)
      × (0 < p)
      × (p ≤ 100)
      × (s.status ≡ RolloutStatus.completed
          → (p ≡ 100) × (config.min_requests_per_stage ≤ s.requests_at_current_stage))
unfolding current_percentage
rollout_percentage config s v r =
    let track = Reaches-IsOnTrack (start_rollout-IsOnTrack config v.some_stage) r in
    let (p, e) = get_elem?_total config.stages s.stage_index track.on_stage in
    let (low, high) = percentage_in_range config.stages s.stage_index p v.percentages e in
    (
      p,
      rw (e, current_percentage) refl,
      low,
      high,
      λ done.
          let (at_end, enough) = track.finished done in
          let full = last-get_elem? config.stages s.stage_index at_end in
          let ends = v.ends_full in (ground arith, enough),
    )

ascending-next :
    (l : List ℕ) (i p q : ℕ)
    → is_ascending l ≡ true
    → get_elem? l i ≡ some p
    → get_elem? l (i + 1) ≡ some q
    → p ≤ q
ascending-next [] i p q h e f = cc
ascending-next (a ∷ []) zero p q h e f = ground arith
ascending-next (a ∷ []) (suc i) p q h e f = cc
ascending-next (a ∷ (b ∷ l)) zero p q h e f = ground arith
ascending-next (a ∷ (b ∷ l)) (suc i) p q h e f =
    ascending-next (b ∷ l) i p q (ground arith) e (ground arith)

advance_raises :
    (config : CanaryConfig) (s : CanaryRolloutState) (p q : ℕ)
    → is_ascending config.stages ≡ true
    → current_percentage s config ≡ ok p
    → current_percentage (try_advance_stage s config) config ≡ ok q
    → p ≤ q
unfolding current_percentage try_advance_stage
advance_raises config s p q v h k = ground (arith, ascending-next config.stages s.stage_index p q v)

-- No step of a rollout lowers the share of traffic that the canary gets.
pub step_raises_percentage :
    {config : CanaryConfig} {s t : CanaryRolloutState} (p q : ℕ)
    → IsValidConfig config
    → RolloutStep config s t
    → current_percentage s config ≡ ok p
    → current_percentage t config ≡ ok q
    → p ≤ q
unfolding current_percentage record_canary_request mark_rolled_back
step_raises_percentage p q v (requested e) h k = ground arith
step_raises_percentage p q v (withdrawn s) h k = ground arith
step_raises_percentage {config} p q v (advanced s) h k = advance_raises config s p q v.in_order h k
