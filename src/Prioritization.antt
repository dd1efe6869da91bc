-- ===== src/Prioritization.antt =====
-- packages/api/src/prioritization: how the capacity of a connection is shared among pools.
-- Allocations has the data, Scaling the algorithm of strategy/adaptive-token-scaling.ts, and
-- Gate its method `gate` over the two repositories of storage/base.
-- Percentages are numbers of JavaScript, whose arithmetic is a parameter: nothing is assumed of how
-- it rounds. Times are in milliseconds.
pub mod Scaling
pub mod Allocations
pub mod Limits
pub mod Rank
pub mod Gate
pub mod Storage
pub mod Admission
mod Tests
