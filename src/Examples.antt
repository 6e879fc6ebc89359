-- ===== src/Examples.antt =====
-- Runs of the service at small sizes, and the theorems applied to them.
pub mod Sorting
pub mod Data
pub mod Scenario
mod Selection
mod Tables
mod Lifecycle
mod Cycles
pub mod Heap
pub mod Widened
mod Replies
mod Service
