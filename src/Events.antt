-- ===== src/Events.antt =====
-- internal/store/events.go and the aggregator of internal/server/aggregate that writes to it.
pub mod Log
pub mod Numbered
pub mod Replay
pub mod Refusal
pub mod Sequencer
pub mod Ids
pub mod Classify
pub mod Aggregate
pub mod Live
pub mod Stream
mod Tests
