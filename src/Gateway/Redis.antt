-- ===== src/Gateway/Redis.antt =====
-- The Redis server, which the repository does not implement: a parameter of the model. The Lua
-- scripts of rate_limit.py and quota.py run on it as one atomic step each. A connection that fails
-- and a counter past 2 ^ 63 - 1 are left out.
use model_hub.Prelude.{
  ℕ, ◌+◌, ◌-◌, ◌<◌, ◌≡◌, Bool, false, Option, none, some, String, leb, str_eq, if◌then◌else◌,
}

pub record Redis : Type 1 where
  pub State : Type 0
  -- GET, read as a number, with 0 for a key that is not there
  pub value : State → String → ℕ
  -- TTL: the seconds left, or none for a key that is not there or does not expire
  pub ttl : State → String → Option ℕ
  pub incrby : String → ℕ → State → ℕ × State
  pub expire : String → ℕ → State → State
  -- the passing of time
  pub wait : ℕ → State → State

abbrev pub has_expired : ℕ → Option ℕ → Bool
has_expired d none = false
has_expired d (some t) = leb t d

abbrev pub ttl_after : ℕ → Option ℕ → Option ℕ
ttl_after d none = none
ttl_after d (some t) = if leb t d then none else some (t - d)

-- The documented behaviour of the commands: INCRBY adds to a counter and leaves its time to live
-- alone, EXPIRE sets the time to live of a key that is there, and a key is gone when its time to
-- live is over.
pub record IsLawful (r : Redis) : Type 0 where
  pub incrby-result : (k : String) (n : ℕ) (s : r.State) → (r.incrby k n s).0 ≡ r.value s k + n
  pub value-incrby :
      (j k : String) (n : ℕ) (s : r.State)
      → r.value (r.incrby k n s).1 j ≡ (if str_eq j k then r.value s k + n else r.value s j)
  pub ttl-incrby : (j k : String) (n : ℕ) (s : r.State) → r.ttl (r.incrby k n s).1 j ≡ r.ttl s j
  pub value-expire :
      (j k : String) (t : ℕ) (s : r.State) → 0 < t → r.value (r.expire k t s) j ≡ r.value s j
  pub ttl-expire :
      (j k : String) (t : ℕ) (s : r.State)
      → 0 < t
      → 0 < r.value s k
      → r.ttl (r.expire k t s) j ≡ (if str_eq j k then some t else r.ttl s j)
  pub value-wait :
      (d : ℕ) (k : String) (s : r.State)
      → r.value (r.wait d s) k ≡ (if has_expired d (r.ttl s k) then 0 else r.value s k)
  pub ttl-wait : (d : ℕ) (k : String) (s : r.State) → r.ttl (r.wait d s) k ≡ ttl_after d (r.ttl s k)
