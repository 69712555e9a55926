-- ===== src/Tests.antt =====
-- Runs of the models on concrete inputs: each theorem with hypotheses is applied once.
mod Start
mod Waits
mod Deferred
mod Queues
mod Calls
mod Asyncs
mod Cells
mod Library
mod Parallel
mod Runs
mod Managers
mod Contract
mod Functions
mod Programs
