-- ===== src/Examples.antt =====
-- Runs of the models at concrete inputs, a module for each part.
pub mod Dispatch
pub mod Alloc
pub mod Rank
pub mod Batcher
pub mod Judge
pub mod Submit
pub mod Repository
pub mod Gateway
pub mod Access
pub mod Contest
pub mod Outbox
