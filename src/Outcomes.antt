-- ===== src/Outcomes.antt =====
-- What a transition of src/state/transitions.rs has found when it succeeds.
pub mod Inversion
pub mod Guarded
pub mod Submission
