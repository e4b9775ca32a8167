-- ===== src/Jobs.antt =====
-- crates/ketebe-server/src/jobs.rs.
pub mod Records
pub mod Store
pub mod Stored
pub mod Recovered
pub mod Steps
pub mod Invariant
pub mod Final
pub mod Progress
