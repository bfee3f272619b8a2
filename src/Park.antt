-- ===== src/Park.antt =====
-- src/codeagent/domain/park.py and src/codeagent/park: the leases on parked agents.
pub mod Registry
mod Tests
