-- ===== src/Codec/RoundTrip.antt =====
-- The writers of wal.rs and segment.rs against their readers.
pub mod WellFormed
pub mod Scalars
pub mod Maps
pub mod Metadata
