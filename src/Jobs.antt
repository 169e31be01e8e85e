-- ===== src/Jobs.antt =====
-- The background jobs that are tried again: webhook jobs and compensation jobs.
pub mod Webhook
pub mod Compensation
pub mod Queue
