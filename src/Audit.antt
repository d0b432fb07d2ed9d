-- ===== src/Audit.antt =====
-- src/state/ownership.rs: the audit of sessions against the rows of their rooms, before anything runs.
pub mod Ownership
pub mod Listed
pub mod Passes
