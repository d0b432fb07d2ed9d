-- ===== src/Recorder.antt =====
-- src/recorder/segment.rs: where segments are written, and when they end.
pub mod Policy
