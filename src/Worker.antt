-- ===== src/Worker.antt =====
-- The worker (app/worker/): it removes the objects of deleted photos, with retries, and reaps
-- uploads that were never finished.
pub mod Jobs
pub mod Batch
pub mod Lease
pub mod Retry
pub mod Reaper
pub mod Completion
pub mod Total
pub mod Cycle
