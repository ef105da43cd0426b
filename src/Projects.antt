-- ===== src/Projects.antt =====
-- internal/store/project.go: the projects of an installation, of which one is active.
pub mod Rows
pub mod Create
pub mod Active
pub mod Bindings
pub mod Distinct
pub mod Counting
pub mod Single
pub mod Archive
pub mod Created
pub mod Steps
pub mod History
pub mod Activated
pub mod Normal
pub mod Bound
pub mod Migrated
mod Tests
