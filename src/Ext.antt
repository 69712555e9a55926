-- ===== src/Ext.antt =====
-- The crate crates/ext: feedbacks, the scheduler with an exit code, and threads from other values.
pub mod Feedbacks
pub mod Tracking
pub mod Scheduler
pub mod Spawn
pub mod Exit
pub mod Traits
pub mod Push
