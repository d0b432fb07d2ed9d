-- ===== src/Flv.antt =====
-- recorder/flv.rs: the FLV container and the H.264 payload inside its video tags.
pub mod Stream
pub mod Header
pub mod TagHeader
pub mod Tag
pub mod RoundTrip
pub mod Written
pub mod Rewritten
pub mod Avc
pub mod Nalus
pub mod InRange
pub mod Filler
pub mod Framed
pub mod Scan
pub mod Tally
pub mod Compact
pub mod Compacted
pub mod Removal
