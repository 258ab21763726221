-- ===== src/Jobs/Tests/Rows.antt =====
-- Test tables: a numbering of rows, one clock per instant, two workers and a few jobs.
use gasu_schedule_bot.Base.{ℕ, ◌+◌, ◌*◌, String, none, some, DateTime, aware, seconds}
use gasu_schedule_bot.Jobs.Queue.{Job, JobStatus, JobQueue}

abbrev pub at_second : ℕ → ℕ → DateTime
at_second s place = aware (s * seconds)

abbrev pub worker_a : JobQueue
worker_a = record { worker_id = "worker-a"; retry_base = 5 * seconds; retry_cap = 60 * seconds }

abbrev pub worker_b : JobQueue
worker_b = record { worker_id = "worker-b"; retry_base = 5 * seconds; retry_cap = 60 * seconds }

-- A pending job that is due from the start.
abbrev pub pending_job : ℕ → String → String → ℕ → Job ℕ
pending_job id kind key payload = record {
  id = id;
  kind = kind;
  idempotency_key = key;
  payload = payload;
  status = JobStatus.pending;
  run_at = 0;
  attempts = 0;
  max_attempts = 3;
  locked_at = none;
  locked_until = none;
  locked_by = none;
  last_error = none;
  created_at = 0;
  updated_at = 0;
  completed_at = none;
}

-- The job after attempt `n` was handed to a worker at second `s`, for ten seconds.
abbrev pub leased_job : ℕ → String → ℕ → Job ℕ
leased_job n worker s = record (pending_job 1 "digest" "k1" 7) {
  status = JobStatus.running;
  attempts = n;
  locked_at = some (s * seconds);
  locked_until = some (s * seconds + 10 * seconds);
  locked_by = some worker;
  updated_at = s * seconds;
}
