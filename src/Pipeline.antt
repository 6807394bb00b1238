-- ===== src/Pipeline.antt =====
-- internal/pipeline: how a job's response reaches its consumer while it is generated.
pub mod Deadline
pub mod Checkpoint
pub mod Handler
pub mod Stream
