-- ===== src/Interactions.antt =====
-- internal/store/interaction.go: questions to the user, their answers and what becomes of them.
pub mod Rows
pub mod Create
pub mod Answer
pub mod Lists
pub mod Created
pub mod Owned
pub mod History
pub mod Outcome
mod Tests
