-- ===== src/Predicate.antt =====
-- crates/ketebe-core/src/predicate.rs: the filters of a search.
pub mod Compare
pub mod Evaluate
pub mod Duality
