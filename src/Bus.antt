-- ===== src/Bus.antt =====
-- The event bus of internal/event/bus.go: topics, and for each subscriber a queue that a worker
-- moves into the subscriber's buffered channel.
pub mod Subscription
pub mod Pump
pub mod Next
pub mod Order
pub mod Delivery
pub mod Wakeup
pub mod Drain
pub mod Topics
pub mod Routing
pub mod RoutingTests
pub mod Tests
