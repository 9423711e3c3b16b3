-- ===== src/SqlExec.antt =====
-- sqlexec/: outcomes, the classification of database errors, and isolated execution.
pub mod Outcomes
pub mod Backends
pub mod Sandbox
pub mod Total
