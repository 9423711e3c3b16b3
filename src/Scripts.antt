-- ===== src/Scripts.antt =====
-- scripts/: the night queue.
pub mod NightQueue
