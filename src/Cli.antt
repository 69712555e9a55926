-- ===== src/Cli.antt =====
-- crates/cli/src/main.rs: the program that runs scripts on the second manager.
pub mod Integers
pub mod Functions
pub mod Bodies
pub mod Globals
pub mod Program
pub mod Starts
pub mod Feedback
pub mod Scripts
