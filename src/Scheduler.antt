-- ===== src/Scheduler.antt =====
-- crates/ketebe-server/src/resource_scheduler.rs: the admission of background work.
pub mod Budget
pub mod Semaphore
pub mod Admission
pub mod Conservation
pub mod Limits
