-- ===== src/Scheduler.antt =====
-- The scheduler of workflows (internal/workflow/scheduler.go) on top of the store.
pub mod Gate
pub mod Exclusive
pub mod Resources
pub mod Stop
pub mod Contention
pub mod Attempt
pub mod StopSteps
pub mod Tests
pub mod Finish
pub mod FinishSteps
pub mod FinishTests
