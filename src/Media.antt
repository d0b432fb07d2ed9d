-- ===== src/Media.antt =====
-- recorder/flv_pipeline.rs: what happens to a tag between the stream and the file.
pub mod Timestamps
pub mod Steady
pub mod Normalizer
pub mod Hands
pub mod Cleaned
pub mod Recorded
pub mod Groups
pub mod Window
