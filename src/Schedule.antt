-- ===== src/Schedule.antt =====
-- The timetable: lessons and their comparison (domain/schedule.py), the official weeks
-- (schedule/spbgasu.py, schedule/coordinator.py) and their synchronization (schedule/service.py),
-- all under src/szs_hub.
pub mod Lesson
pub mod Diff
pub mod Html
pub mod Page
pub mod Week
pub mod Store
pub mod Sync
pub mod Coordinator
pub mod Client
mod Tests
