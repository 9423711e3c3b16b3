-- ===== src/Gate.antt =====
-- gate/: the five admission gates and their verdict.
pub mod Types
pub mod Checks
pub mod Regression
pub mod Admission
