-- ===== src/Tests/RedisServer.antt =====
-- A small server that keeps the documented behaviour of the Redis commands.
use model_hub.Prelude.{
  ℕ, ◌+◌, refl, Option, none, some, String, arith, str_eq, str_eq_iff, if◌then◌else◌,
}
use model_hub.Gateway.Redis.{Redis, IsLawful, has_expired, ttl_after}

-- The counter and the time to live of every key.
abbrev pub Counters : Type 0
Counters = String → ℕ × Option ℕ

abbrev pub no_counters : Counters
no_counters k = (0, none)

abbrev pub memory_server : Redis
memory_server = record {
  State = Counters;
  value = λ s k. (s k).0;
  ttl = λ s k. (s k).1;
  incrby = λ k n s. ((s k).0 + n, λ j. if str_eq j k then ((s j).0 + n, (s j).1) else s j);
  expire = λ k t s. λ j. if str_eq j k then ((s j).0, some t) else s j;
  wait = λ d s. λ j. if has_expired d (s j).1 then (0, none) else ((s j).0, ttl_after d (s j).1);
}

pub memory_server-IsLawful : IsLawful memory_server
memory_server-IsLawful = record {
  incrby-result = λ k n s. refl;
  value-incrby = λ j k n s. ground (arith, str_eq_iff j k);
  ttl-incrby = λ j k n s. ground arith;
  value-expire = λ j k t s h. ground arith;
  ttl-expire = λ j k t s h h'. ground arith;
  value-wait = λ d k s. ground arith;
  ttl-wait = λ d k s. ground arith;
}
