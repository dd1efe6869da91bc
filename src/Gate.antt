-- ===== src/Gate.antt =====
-- packages/api/src/completion/gate.service.ts: whether a request may go to a connection, and the
-- counters that it uses.
pub mod Limits
pub mod Counters
pub mod Request
pub mod Applied
pub mod Checks
pub mod Window
mod Tests
