-- ===== src/Data.antt =====
-- data/: the sample schema, hashing, deduplication, splits and the build of a dataset version.
pub mod Schema
pub mod Hashing
pub mod Dedup
pub mod Splits
pub mod Pipeline
