-- ===== src/Common.antt =====
-- common/: the error taxonomy, the run manifest and capability checks.
pub mod Errors
pub mod Manifest
pub mod Capability
pub mod AtomicIo
