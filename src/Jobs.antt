-- ===== src/Jobs.antt =====
-- The background jobs: src/app/background_jobs.
pub mod Registry
pub mod Backoff
pub mod Queue
pub mod Worker
pub mod Admin
pub mod Ids
pub mod System
