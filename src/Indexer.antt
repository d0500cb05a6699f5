-- ===== src/Indexer.antt =====
-- The chain indexer (backend/app/indexer/listener.py).
pub mod Price
pub mod Plan
pub mod Checkpoint
pub mod Events
pub mod Amm
pub mod Tick
pub mod Tiles
pub mod Captured
pub mod Gapless
pub mod Ticks
pub mod Ready
pub mod History
pub mod Progress
pub mod Bounds
