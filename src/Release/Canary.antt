-- ===== src/Release/Canary.antt =====
-- release/canary.py. Percentages and counts are naturals; `CanaryConfig` refuses a negative stage
-- as it refuses 0. `digest` is SHA-256 of the request key, read as a number: a library's function
-- and so a parameter.
pub mod Stages
pub mod Progress
use model_hub.Prelude.{
  ℕ, suc, ◌+◌, ◌-◌, ◌%◌, Bool, true, false, not, ◌&&◌, ◌||◌, Option, none, some, List, [], ◌∷◌,
  String, Result, ok, err, length, get_elem?, ltb, leb, ◌==◌, if◌then◌else◌,
}
use model_hub.Prelude.Counting.{any_if}
use model_hub.Common.Errors.{Exception, value_error, other_error}

pub record CanaryConfig : Type 0 where
  pub stages : List ℕ
  pub min_requests_per_stage : ℕ

-- `stages == sorted(stages)`
abbrev pub is_ascending : List ℕ → Bool
is_ascending [] = true
is_ascending (a ∷ []) = true
is_ascending (a ∷ (b ∷ l)) = leb a b && is_ascending (b ∷ l)

-- `stages[-1]` of a list that is not empty
abbrev pub last_stage : List ℕ → ℕ
last_stage [] = 0
last_stage (a ∷ []) = a
last_stage (a ∷ (b ∷ l)) = last_stage (b ∷ l)

abbrev is_percentage : ℕ → Bool
is_percentage s = ltb 0 s && leb s 100

-- The checks of `model_post_init`, in their order.
unfoldable pub model_post_init : CanaryConfig → Result Exception CanaryConfig
model_post_init config =
    if leb (length config.stages) 0
    then err value_error
    else if not (is_ascending config.stages)
    then err value_error
    else if not (last_stage config.stages == 100)
    then err value_error
    else if any_if (λ s. not (is_percentage s)) config.stages
    then err value_error
    else ok config

pub data Arm : Type 0 where
  stable canary : Arm

module _ (digest : String → ℕ) where
  unfoldable pub route_canary_traffic : String → ℕ → Result Exception Arm
  route_canary_traffic request_key canary_percentage =
      if not (leb canary_percentage 100)
      then err value_error
      else ok (if ltb (digest request_key % 100) canary_percentage then canary else stable)

pub data RolloutStatus : Type 0 where
  in_progress completed rolled_back : RolloutStatus

pub record CanaryRolloutState : Type 0 where
  pub stage_index : ℕ
  pub requests_at_current_stage : ℕ
  pub status : RolloutStatus

-- `config.stages[self.stage_index]`, with the IndexError past the end.
unfoldable pub current_percentage : CanaryRolloutState → CanaryConfig → Result Exception ℕ
current_percentage s config = elim (get_elem? config.stages s.stage_index) [
  | none ↦ err other_error
  | some p ↦ ok p
]

unfoldable pub start_rollout : CanaryRolloutState
start_rollout = record {
  stage_index = 0;
  requests_at_current_stage = 0;
  status = RolloutStatus.in_progress;
}

abbrev pub is_in_progress : RolloutStatus → Bool
is_in_progress RolloutStatus.in_progress = true
is_in_progress _ = false

unfoldable pub record_canary_request : CanaryRolloutState → Result Exception CanaryRolloutState
record_canary_request s =
    if not (is_in_progress s.status)
    then err value_error
    else ok (record s { requests_at_current_stage = s.requests_at_current_stage + 1 })

-- `s.stage_index == len(stages) - 1` is written without subtraction.
unfoldable pub try_advance_stage : CanaryRolloutState → CanaryConfig → CanaryRolloutState
try_advance_stage s config =
    if not (is_in_progress s.status)
    then s
    else if ltb s.requests_at_current_stage config.min_requests_per_stage
    then s
    else if s.stage_index + 1 == length config.stages
    then record s { status = RolloutStatus.completed }
    else record {
      stage_index = s.stage_index + 1;
      requests_at_current_stage = 0;
      status = RolloutStatus.in_progress;
    }

unfoldable pub mark_rolled_back : CanaryRolloutState → CanaryRolloutState
mark_rolled_back s = record s { status = RolloutStatus.rolled_back }
