-- ===== src/Core.antt =====
-- The domain values of crates/ketebe-core: identifiers, vectors, metadata and records.
pub mod Values
pub mod Utf8
pub mod RecordOrder
