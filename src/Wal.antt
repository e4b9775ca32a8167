-- ===== src/Wal.antt =====
-- crates/ketebe-storage/src/wal.rs: the write-ahead log.
pub mod Frame
pub mod Payload
pub mod Log
pub mod PayloadRoundTrip
pub mod FrameRoundTrip
pub mod Replay
pub mod Durability
pub mod Crash
pub mod TornTail
pub mod Order
