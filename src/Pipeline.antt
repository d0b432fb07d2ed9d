-- ===== src/Pipeline.antt =====
-- src/pipeline: the phases of a supervised room.
pub mod StateMachine
pub mod Phases
