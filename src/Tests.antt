-- ===== src/Tests.antt =====
-- Concrete inputs, on which the theorems' hypotheses hold.
mod Samples
mod Logs
mod Files
mod Segments
mod Filters
mod Scheduling
mod Queries
mod Searches
mod Plans
mod Jobs
mod Stores
