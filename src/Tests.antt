-- ===== src/Tests.antt =====
-- Concrete inputs on which the theorems with hypotheses apply.
mod RedisServer
mod Limits
mod Handler
mod Breakers
mod Gates
mod Releases
mod Comparisons
mod Nights
mod Preferences
mod Writes
mod Evaluations
mod Trainings
