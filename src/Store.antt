-- ===== src/Store.antt =====
-- The relational store of workflows, tasks and subtasks (internal/store).
pub mod Status
pub mod Rows
pub mod Tx
pub mod Moves
pub mod Tables
pub mod Admission
pub mod Task
pub mod Graph
pub mod GraphBounds
pub mod Kahn
pub mod Rounds
pub mod Acyclic
pub mod CycleCheck
pub mod Cycles
pub mod Acceptance
pub mod Accepted
pub mod PlanOrder
pub mod Draft
pub mod SubTask
pub mod Recovery
pub mod Runnable
pub mod Workflow
pub mod Plan
pub mod WorkflowSteps
pub mod WorkflowTests
pub mod PlanTests
pub mod Execution
pub mod ExecutionSteps
pub mod Admitted
pub mod Approval
pub mod Exclusive
pub mod ExecutionTests
pub mod Evolution
pub mod TaskSteps
pub mod AssignSteps
pub mod WaitSteps
pub mod SubTaskSteps
pub mod PlanSteps
pub mod History
pub mod Guards
pub mod GuardTests
pub mod Branches
pub mod BranchTests
pub mod Samples
pub mod Tests
