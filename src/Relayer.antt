-- ===== src/Relayer.antt =====
-- The relayer of the order book's fills (backend/app/relayer/): fee policy, nonces, the queue of
-- jobs, the checks before a send, and the worker's steps on a job.
pub mod Gas
pub mod Nonce
pub mod Queue
pub mod Preflight
pub mod Worker
