-- ===== src/Completion.antt =====
-- packages/api/src/completion/completion.service.ts: a completion request, from the choice of its
-- model to the records of how it ended.
pub mod Records
pub mod Select
pub mod Attempt
pub mod Run
pub mod Fallback
pub mod Order
pub mod Accounting
pub mod Discovered
mod Tests
