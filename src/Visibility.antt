-- ===== src/Visibility.antt =====
-- `fold_visible_records` of crates/ketebe-storage/src/search.rs: the records that a search over
-- several segments sees.
pub mod Fold
pub mod Lookup
pub mod Keyed
pub mod Stored
