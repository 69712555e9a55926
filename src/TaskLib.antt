-- ===== src/TaskLib.antt =====
-- crates/scheduler/src/userdata.rs: the functions of the Lua library `task`, and coroutine.resume.
--
-- Each takes the world and its arguments, and gives the world with what Lua gets. Numbers of seconds
-- are an abstract type with the operations of f64 and Duration that the code uses.
pub mod Defs
pub mod Laws
pub mod Defers
pub mod Delays
