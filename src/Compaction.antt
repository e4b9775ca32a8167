-- ===== src/Compaction.antt =====
-- crates/ketebe-storage/src/compaction.rs: one segment in place of several.
pub mod Merge
pub mod Sorting
pub mod Gathered
pub mod Visible
