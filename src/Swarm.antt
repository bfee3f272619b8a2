-- ===== src/Swarm.antt =====
-- src/codeagent/swarm: delivery of messages between the devices of a session.
pub mod Outbox
pub mod Flush
mod Tests
