-- ===== src/Eval.antt =====
-- eval/: prediction records, metrics, the gold cache, the runner and report readiness.
pub mod Records
pub mod Metrics
pub mod GoldCache
pub mod RecordFile
pub mod Runner
pub mod Readiness
