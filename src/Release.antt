-- ===== src/Release.antt =====
-- internal/release: settling completed jobs on-chain.
pub mod Store
pub mod Chain
pub mod Backoff
pub mod Scheduler
pub mod FileOps
pub mod Reconciler
