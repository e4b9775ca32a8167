-- ===== src/Segment.antt =====
-- crates/ketebe-storage/src/segment.rs: immutable segments, and their files.
pub mod Build
pub mod LastWins
pub mod Codec
pub mod Format
pub mod Encode
pub mod RoundTrip
pub mod Growing
pub mod Built
