-- ===== src/Tests.antt =====
-- The definitions run on small inputs, and each theorem with hypotheses applied where they hold.
pub mod Attempts
mod Nonces
mod Subpools
mod StateFile
pub mod Checkpoints
mod Cycles
mod Losses
mod Shared
mod Passes
mod Broadcasts
mod Watches
mod Streams
