-- ===== src/Segments.antt =====
-- The segments of the store as a state machine: its steps (Step), what each transition of
-- src/state/transitions.rs does in terms of them (Refines), and what they keep.
pub mod Step
pub mod Keys
pub mod Rules
pub mod Refines
pub mod Closing
pub mod Attempts
pub mod Sound
pub mod SoundSteps
pub mod Keeps
pub mod Held
pub mod Grows
