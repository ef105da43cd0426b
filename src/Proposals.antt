-- ===== src/Proposals.antt =====
-- internal/store/plan_proposal.go: plans under review in a Conversation, and their approval.
pub mod Rows
pub mod Submit
pub mod Approve
pub mod Kept
pub mod Written
pub mod Closed
pub mod History
mod Tests
