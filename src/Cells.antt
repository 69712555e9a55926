-- ===== src/Cells.antt =====
-- The cells of crates/scheduler/src/lib.rs, and what they guarantee where threads run in parallel.
pub mod Cell
pub mod Counter
pub mod Bounds
pub mod Turns
pub mod Lost
