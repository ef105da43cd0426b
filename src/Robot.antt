-- ===== src/Robot.antt =====
-- internal/robot: what the server tells of a robot.
pub mod State
pub mod Reading
mod Tests
