-- ===== src/Jobs.antt =====
-- The scheduled jobs: app/jobs.
pub mod Expiry
