-- ===== src/Runs.antt =====
-- Runs of the program: the transitions of src/state/transitions.rs in any order (Command, Execute),
-- the steps that each takes (Effects), and what holds of every store that a run reaches.
pub mod Command
pub mod Execute
pub mod Quiet
pub mod Effects
pub mod Reachable
pub mod Recordable
pub mod Atomic
pub mod Lasting
