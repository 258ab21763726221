-- ===== src/Jobs/Tests.antt =====
-- The job queues on concrete tables: runs of the methods, and the theorems at concrete inputs.
mod Rows
mod QueueRuns
mod OutboxRuns
