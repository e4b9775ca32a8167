-- ===== src/Codec.antt =====
-- The binary format that wal.rs, segment.rs and checkpoint.rs share.
pub mod Words
pub mod Crc
pub mod Envelope
pub mod Cursor
pub mod Write
pub mod Read
pub mod Reads
pub mod RoundTrip
pub mod Fuel
