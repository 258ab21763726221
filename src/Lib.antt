-- ===== src/Lib.antt =====
-- Verification library of the SZS Hub schedule bot (src/szs_hub).
--
-- The bot is one process around one SQLite database. Application code admits work into two durable
-- queues, background workers claim it under a lease and complete it, and optional services, such as
-- the assistant with its quota, keep their own rows in the same database.
--
-- Base: shared types, tests on numbers and texts, lists, results and time.
-- Sql: the statements that the program sends, on a table held as the list of its rows; how the
--   database numbers new rows is the interface `RowIds`.
-- Jobs.Policy: the guards and the retry delay at the end of src/szs_hub/jobs/queue.py.
-- Jobs.Queue: `JobQueue` of src/szs_hub/jobs/queue.py on rows of `Job` (storage/models.py). `enqueue`,
--   `claim_due`, `succeed` and `fail` are the methods; `fail_exhausted_expired` is the private one.
-- Jobs.Outbox: `OutboxQueue` of the same file; `enqueue_message`, `claim_message`, `mark_sent` and
--   `mark_failed` are its `enqueue`, `claim_due`, `sent` and `fail`.
--   Jobs.Queue.Ready and Jobs.Outbox.Ready say apart from the statements which rows a claim may take
--   and in which order; the two Choice modules hold the claims against that.
-- Jobs.Worker: `run_once` of both workers of src/szs_hub/jobs/worker.py.
-- Ai.Quota: `DurableDailyQuota` and `QuotaLimitedProvider` of src/szs_hub/ai/quota.py; Ai.Json the values
--   of a setting.
-- Attendance: `decide_attendance_action` of src/szs_hub/domain/attendance.py; Attendance.Service: the
--   `AttendanceService` of src/szs_hub/attendance/service.py with its three tables;
--   Attendance.Roster: its `summary`.
-- Materials.Classifier and Materials.Workflow: `assess_material` and `MaterialWorkflow` of
--   src/szs_hub/domain/materials.py; `route_material` and `fail_workflow` are `route` and `fail`.
-- Inbox: `enqueue_raw_update` and `record_processed_update` of src/szs_hub/storage/inbox.py.
-- Calendar: `_fold_line`, `_ical_escape` and `_location` of src/szs_hub/schedule/calendar.py.
-- Schedule.Lesson and Schedule.Diff: src/szs_hub/domain/schedule.py; `match_sources` and
--   `match_candidates` are the two loops of `_match_lessons`, `comparisons` the six tests of a pair.
-- Schedule.Html, Schedule.Page, Schedule.Week: `_ScheduleHtmlParser` with the searches in its tree,
--   `_parse_schedule_html`, and `materialize_week` with `parity_for_week`, of
--   src/szs_hub/schedule/spbgasu.py. The parser's stack holds the open nodes, each with the children
--   it has so far.
-- Schedule.Store and Schedule.Sync: `ScheduleSyncService` and `_ScheduleRepository` of
--   src/szs_hub/schedule/service.py: loading, a failed synchronization, and, in
--   Schedule.Sync.Saving with its Call, a successful one. A marker is the record of the nine entries
--   of its JSON object.
-- Schedule.Coordinator: `get_week` of src/szs_hub/schedule/coordinator.py.
-- Schedule.Client: `_request_group` of src/szs_hub/schedule/spbgasu.py, against any network: a request
--   is lost, fails with an error that is not caught, or is answered.
-- Assistant: `render_answer_with_sources` of src/szs_hub/assistant/conversation.py.
-- Telegram.Members: `TelegramMembershipStore` of src/szs_hub/telegram/membership_store.py.
-- The Tests modules run the definitions and apply the theorems at concrete inputs.
--
-- State is passed explicitly: an operation takes the table and returns its answer with the new
-- table. A raise inside a transaction rolls it back, so it carries no table. Calls run one at a
-- time, and interleavings of workers are sequences of whole calls. A queue method or an inbox
-- function begins its transaction with a write, which takes SQLite's write lock. The transactions
-- of the quota, the attendance service and the membership store begin with reads: that no two of
-- them overlap is an assumption. Instants and durations are microseconds in UTC; a datetime without
-- a zone is a value of its own, refused where the program refuses it. Dates are ordinals of days,
-- times of day microseconds, and texts of the timetable lists of code points. Recursion is on a list,
-- a text or a tree; only the loop that collects the text of a node runs on fuel, and the number of
-- strings and nodes below the node, with which the page parser calls it, is enough.
--
-- Parameters, since their code is not in the repository: the numbering of rows, the clock, the
-- equality of JSON payloads, the character table of `str.isalnum`, the formats of dates and
-- numbers, `str.strip`, case folding, regular expressions, the order of a sorted query, handlers,
-- senders, the AI provider, floating-point numbers, `SequenceMatcher`, SHA-256 of JSON, `strptime` and
-- the events of `HTMLParser`. Not modelled: the polling loops, HTTP, calls of the Telegram API,
-- document extraction, rendering of messages, and operations.
pub mod Base
pub mod Sql
pub mod Jobs
pub mod Ai
pub mod Attendance
pub mod Materials
pub mod Inbox
pub mod Calendar
pub mod Telegram
pub mod Schedule
pub mod Assistant
