-- ===== src/AsyncFunction.antt =====
-- crates/scheduler/src/async.rs: Lua functions whose work is a future.
pub mod Defs
pub mod Count
pub mod Calls
pub mod Agree
pub mod Enters
