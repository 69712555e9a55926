-- ===== src/V1.antt =====
-- The first task manager, crates/scheduler/src/taskmgr_v1.rs.
pub mod State
pub mod Process
pub mod Queues
pub mod Loops
pub mod Pass
pub mod Stop
pub mod Starve
pub mod Measure
pub mod Due
pub mod Ends
pub mod Halts
pub mod View
pub mod Serve
pub mod Refine
