-- ===== src/Chain.antt =====
-- internal/chain: what stands between the worker's transactions and the chain.
pub mod Nonce
pub mod StuckNonce
pub mod Subpool
pub mod SendErrors
pub mod Broadcast
