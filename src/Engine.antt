-- ===== src/Engine.antt =====
-- rust/src/engine.rs: the batch coordinator.
pub mod Effects
pub mod Logic
pub mod Roster
pub mod Control
pub mod Attempt
pub mod Loop
pub mod Run
pub mod Safety
pub mod Termination
