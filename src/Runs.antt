-- ===== src/Runs.antt =====
-- internal/store/chat.go: the runs of agents.
pub mod Rows
pub mod Lifecycle
pub mod Queries
pub mod History
pub mod Restart
mod Tests
