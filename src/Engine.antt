-- ===== src/Engine.antt =====
-- option-b/internal/engine: what a leader does with the orders that Kafka brings, what it publishes, and
-- what it gets back after a failover.
pub mod Recover
pub mod Messages
pub mod Publish
pub mod Validation
pub mod Risk
pub mod Submit
pub mod Loop
pub mod Hub
pub mod Leader
mod Tests
