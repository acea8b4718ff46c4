-- ===== src/Workers.antt =====
-- app/workers: the loop that runs the queued jobs.
pub mod Worker
pub mod Jobs
