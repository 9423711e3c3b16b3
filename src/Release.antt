-- ===== src/Release.antt =====
-- release/: the registry of model versions, the rollout of a canary, its health check, and the
-- cycle that ties them together.
pub mod Health
pub mod Registry
pub mod Canary
pub mod Rollback
pub mod Sampling
pub mod Orchestrator
