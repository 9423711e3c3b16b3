-- ===== src/Compare.antt =====
-- compare/: the result-set comparator.
pub mod Types
pub mod Values
pub mod Comparator
