-- ===== src/Sortition.antt =====
-- internal/sortition: how the worker finds its work on the chain. The cursors that a restart
-- resumes from, the watcher that serves jobs and the one that claims sessions.
pub mod Cursor
pub mod Jobs
pub mod Sessions
