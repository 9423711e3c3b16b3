-- ===== src/Train.antt =====
-- train/: preference data, rewards and training guards.
pub mod Dpo
pub mod Grpo
pub mod Checkpoints
pub mod TimeBudget
pub mod Preflight
