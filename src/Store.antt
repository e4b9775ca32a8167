-- ===== src/Store.antt =====
-- crates/ketebe-storage/src: storage_backend.rs, and SegmentStore of segment.rs.
pub mod Directory
pub mod Segments
pub mod Collect
pub mod Retained
pub mod Removed
pub mod Writing
pub mod Published
