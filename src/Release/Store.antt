-- ===== src/Release/Store.antt =====
-- internal/release/store.go: the state file of the release loop.
-- The lock makes each method one step on the file. The file system enters as one `Io` for each
-- call: whether locking and reading fail, and at which stage a write fails. JSON is read back as
-- it was written, so a file is its document. Rendering and parsing an address belong to
-- go-ethereum, and are the parameter `AddressCodec`.
pub mod File
pub mod Calls
pub mod Atomic
pub mod Spec
pub mod Invariant
pub mod Opening
pub mod Order
