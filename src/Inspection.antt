-- ===== src/Inspection.antt =====
-- src/state/inspection.rs: what the operator's report finds in a snapshot of the store.
pub mod Anomalies
pub mod Detect
pub mod Owners
