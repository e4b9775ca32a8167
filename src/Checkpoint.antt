-- ===== src/Checkpoint.antt =====
-- crates/ketebe-storage/src/checkpoint.rs: the segments that a collection consists of.
pub mod File
pub mod Encode
pub mod Normal
pub mod RoundTrip
