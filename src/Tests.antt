-- ===== src/Tests.antt =====
-- Concrete stores and runs of src/state/transitions.rs, and the theorems at them.
pub mod Data
pub mod Play
pub mod Runs
pub mod Rooms
pub mod Outcomes
pub mod Phases
pub mod Flv
pub mod Media
pub mod Work
pub mod Inspection
pub mod Recorder
