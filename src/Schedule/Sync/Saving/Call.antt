-- ===== src/Schedule/Sync/Saving/Call.antt =====
-- The whole call of `sync_week` of src/szs_hub/schedule/service.py: what the source answered, the
-- transaction that follows, and the clock.
use gasu_schedule_bot.Base.{
  ℕ, Bool, true, false, Option, none, some, List, [], map, ◌==◌, if◌then◌else◌, Text, text_eq,
  DateTime, Result, ok, raise, ◌>>=◌,
}
use gasu_schedule_bot.Schedule.Lesson.{Unicode, Lesson, ScheduleError, ScheduleChange}
use gasu_schedule_bot.Schedule.Diff.{Floats, diff_schedules}
use gasu_schedule_bot.Schedule.Page.{WeekParity, WeeklySchedule, SourceError, strip}
use gasu_schedule_bot.Schedule.Week.{WeekFormats, materialize_week}
use gasu_schedule_bot.Schedule.Store.{
  SourceFailure, SyncError, Store, Formats, spbgasu, StoredVersion,
}
use gasu_schedule_bot.Schedule.Store.Loading.{load_confirmation}
use gasu_schedule_bot.Schedule.Sync.{
  SyncResult, aware_utc, validate_request, freshness_of, served, confirm, sync_failed,
}
use gasu_schedule_bot.Schedule.Sync.Saving.{store_snapshot, store_changes}

abbrev pub lesson_error :
    Result ScheduleError (List ScheduleChange) → Result SyncError (List ScheduleChange)
lesson_error (ok changes) = ok changes
lesson_error (raise error) = raise (SyncError.lesson_error error)

-- What `sync_week` compares: nothing on the first snapshot, nor where the snapshot is the confirmed one.
abbrev pub compared :
    Unicode → Floats → Option StoredVersion → StoredVersion → Result SyncError (List ScheduleChange)
compared u floats none current = ok []
compared u floats (some previous) current =
    if previous.row.id == current.row.id
    then ok []
    else lesson_error (diff_schedules u floats previous.snapshot current.snapshot)

-- How the source answered: lessons, a failure that is caught, or an error that is not.
pub data Answer : Type 0 where
  answered : List Lesson → Answer
  failed : SourceFailure → Answer
  escaped : SyncError → Answer

-- `_classify_failure`, and the errors that the `except` clause does not catch.
abbrev pub classify_failure : SourceError → Answer
classify_failure SourceError.unavailable = failed SourceFailure.source_unavailable
classify_failure SourceError.group_not_found = failed SourceFailure.group_not_found
classify_failure (SourceError.protocol _) = failed SourceFailure.invalid_response
classify_failure error = escaped (SyncError.value_error error)

-- `replace(lesson, teacher=None)`
abbrev pub without_teacher : Lesson → Lesson
without_teacher lesson = record lesson { teacher = none }

abbrev pub answer_of : Bool → Result SourceError (List Lesson) → Answer
answer_of retain (raise error) = classify_failure error
answer_of true (ok lessons) = answered lessons
answer_of false (ok lessons) = answered (map without_teacher lessons)

abbrev pub week_answer :
    Unicode
    → WeekFormats
    → Bool
    → Text
    → ℕ
    → WeekParity
    → Result SourceError WeeklySchedule
    → Answer
week_answer u wf retain group week_start parity (raise error) = classify_failure error
week_answer u wf retain group week_start parity (ok weekly) =
    if text_eq (strip u weekly.group_key) group
    then answer_of retain (materialize_week u wf weekly week_start parity)
    else escaped (SyncError.state_error "schedule client returned a different group")

module _ (f : Formats) (wf : WeekFormats) (floats : Floats) (fresh_for : ℕ) (retain : Bool) where
  -- The transaction after a successful fetch.
  unfoldable pub sync_answered :
      Text → ℕ → WeekParity → ℕ → List Lesson → Store → Result SyncError (SyncResult × Store)
  sync_answered group week_start parity checked_at lessons store = do
    previous ← load_confirmation f spbgasu group week_start store
    ((current, created), with_snapshot) ←
        store_snapshot f
          (record {
            source = spbgasu;
            group_key = group;
            fetched_at = checked_at;
            lessons = lessons;
          })
          week_start parity store
    changes ← compared f.unicode floats previous.version current
    ((new_changes, change_ids), with_changes) ←
        store_changes f previous.version current changes checked_at with_snapshot
    let freshness = freshness_of fresh_for checked_at (some checked_at) none false
    ok (
      record {
        schedule = served week_start (some parity) freshness (some current);
        freshness = freshness;
        snapshot_created = created;
        changes = new_changes;
        change_ids = change_ids;
      },
      confirm f group week_start checked_at parity current with_changes,
    )

  -- The clock is read where the source has answered or failed.
  abbrev pub sync_with :
      Text → ℕ → WeekParity → DateTime → Store → Answer → Result SyncError (SyncResult × Store)
  sync_with group week_start parity clock store (escaped error) = raise error
  sync_with group week_start parity clock store (failed failure) = do
    checked_at ← aware_utc clock
    sync_failed f group week_start fresh_for checked_at failure store
  sync_with group week_start parity clock store (answered lessons) = do
    checked_at ← aware_utc clock
    sync_answered group week_start parity checked_at lessons store

  unfoldable pub sync_week :
      Text
      → ℕ
      → WeekParity
      → Result SourceError WeeklySchedule
      → DateTime
      → Store
      → Result SyncError (SyncResult × Store)
  sync_week group_key week_start parity fetched clock store = do
    group ← validate_request f.unicode group_key week_start
    sync_with group week_start parity clock store
        (week_answer f.unicode wf retain group week_start parity fetched)
