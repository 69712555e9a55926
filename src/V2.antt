-- ===== src/V2.antt =====
-- The second task manager, crates/scheduler/src/taskmgr_v2.rs.
pub mod State
pub mod Arms
pub mod Clear
pub mod Resumes
pub mod Run
pub mod Calls
pub mod Keys
pub mod Invariant
pub mod Rounds
pub mod Reach
pub mod Safety
pub mod Deferred
pub mod Cancel
pub mod Work
pub mod Progress
pub mod Wake
pub mod Marks
pub mod View
pub mod Branches
pub mod Follow
pub mod Refine
pub mod Account
pub mod NoLoss
pub mod Outcomes
pub mod Sleeps
pub mod Parallel
pub mod Settles
pub mod Uninterrupted
pub mod Stop
