-- ===== src/Contract.antt =====
-- What both task managers promise of the threads that they are given, whatever order they serve them
-- in: the abstract specification that crates/scheduler/src/taskmgr_v1.rs and taskmgr_v2.rs refine.
pub mod Bag
pub mod Spec
pub mod Asks
pub mod Conserve
pub mod Tally
pub mod Waits
