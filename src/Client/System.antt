-- ===== src/Client/System.antt =====
-- The tasks of one event loop: the callers, the workers and the reschedules, run in any order, with
-- callers that are cancelled.
pub mod Defs
pub mod Carriers
pub mod Futures
pub mod Segments
pub mod Kept
pub mod Workers
pub mod Balances
pub mod Consistent
pub mod Invariant
pub mod Moves
pub mod Covered
pub mod Interrupted
pub mod Split
pub mod Ledger
pub mod Stages
pub mod Puts
pub mod Attempts
pub mod Budget
pub mod Sends
pub mod Counted
pub mod Saved
pub mod Written
pub mod Crashed
pub mod Stuck
pub mod Runnable
pub mod Progress
pub mod Unserved
pub mod Stranded
pub mod Recovered
