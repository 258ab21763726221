-- ===== src/Jobs.antt =====
-- The durable queues of src/szs_hub/jobs: background work, the Telegram outbox, and their workers.
pub mod Policy
pub mod Queue
pub mod Outbox
pub mod Worker
mod Tests
