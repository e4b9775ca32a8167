-- ===== src/Search.antt =====
-- crates/ketebe-storage/src: search.rs, query_control.rs, filter.rs and cost_planner.rs.
pub mod Sort
pub mod TopK
pub mod Pages
pub mod Control
pub mod Score
pub mod Exact
pub mod Order
pub mod Ranked
pub mod Stops
pub mod Hits
pub mod Paging
pub mod Index
pub mod Filtered
pub mod Keeping
pub mod Narrowing
pub mod FilterAfter
pub mod Plan
pub mod Count
pub mod Execute
pub mod Corpus
pub mod Sound
pub mod Answered
pub mod Planned
