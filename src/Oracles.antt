-- ===== src/Oracles.antt =====
-- The oracles' resolution jobs (oracles).
pub mod Fallback
