-- ===== src/Jobs.antt =====
-- Background jobs: backend/app/services/jobs.py, the frame of `process_job` in
-- backend/app/services/pipeline.py, and the handlers that start, cancel and retry.
pub mod Queue
pub mod Worker
pub mod Cancellation
pub mod Idempotency
pub mod Lifecycle
pub mod Reaper
