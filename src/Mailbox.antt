-- ===== src/Mailbox.antt =====
-- src/codeagent/mailbox: messages between agents, and what becomes of a request.
pub mod Protocol
pub mod Ledger
pub mod Dicts
pub mod Validate
pub mod Store
pub mod Sessions
mod Tests
mod StoreTests
