-- ===== src/Ai.antt =====
-- The optional AI assistant of src/szs_hub/ai.
pub mod Json
pub mod Quota
mod Tests
