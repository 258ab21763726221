-- ===== src/Schedule/Sync/Saving.antt =====
-- The storing half of `_ScheduleRepository` of src/szs_hub/schedule/service.py: a content-addressed
-- snapshot with its lessons, and the changes, each stored once for its target.
pub mod Call
use gasu_schedule_bot.Base.{
  ℕ, Bool, true, false, ◌&&◌, not, Option, none, some, List, [], ◌∷◌, ◌++◌, map, ◌==◌,
  if◌then◌else◌, exists, Text, text_eq, DateTime, String, Result, ok, raise, raise_if, ◌>>=◌,
}
use gasu_schedule_bot.Attendance.Service.{first_where}
use gasu_schedule_bot.Schedule.Lesson.{
  Unicode, Lesson, Canonical, ScheduleError, ScheduleSnapshot, ScheduleChange, canonical,
  content_hash,
}
use gasu_schedule_bot.Schedule.Diff.{Floats, diff_schedules}
use gasu_schedule_bot.Schedule.Page.{WeekParity, WeeklySchedule, SourceError, strip}
use gasu_schedule_bot.Schedule.Week.{WeekFormats, materialize_week}
use gasu_schedule_bot.Schedule.Store.{
  SourceFailure, SyncError, words, SnapshotRow, LessonRow, ChangeRow, Store, Formats, spbgasu,
  parity_value, StoredVersion,
}
use gasu_schedule_bot.Schedule.Store.Loading.{load_version, load_confirmation}
use gasu_schedule_bot.Schedule.Sync.{
  SyncResult, aware_utc, validate_request, freshness_of, served, confirm, sync_failed,
}

abbrev pub or_missing : String → Bool → Option ℕ → Result SyncError (Option ℕ)
or_missing message true none = raise (SyncError.state_error message)
or_missing message _ found = ok found

-- `lesson_ids.get(key)`; of equal keys the dictionary keeps the last.
unfoldable pub lesson_id_of : Text → List (Text × ℕ) → Option ℕ
lesson_id_of key [] = none
lesson_id_of key ((k, id) ∷ ids) = later (lesson_id_of key ids)
  where
    later : Option ℕ → Option ℕ
    later (some found) = some found
    later none = if text_eq k key then some id else none

-- The change is among the rows of the target snapshot: those found, and those added before it.
unfoldable pub is_stored : ℕ → Text → List ChangeRow → Bool
is_stored to_id print rows =
    exists (λ row. row.to_snapshot_id == to_id && text_eq row.fingerprint print) rows

abbrev pub saved_first :
    ScheduleChange
    → ℕ
    → (List ScheduleChange × List ℕ) × List ChangeRow
    → (List ScheduleChange × List ℕ) × List ChangeRow
saved_first change id ((changes, ids), rows) = ((change ∷ changes, id ∷ ids), rows)

module _ (f : Formats) where
  abbrev pub lesson_key : Lesson → Text
  lesson_key lesson = f.lesson_digest (canonical f.unicode lesson)

  -- The loop of `store_snapshot` over the lessons.
  unfoldable pub insert_lessons :
      ℕ
      → List Lesson
      → List (Text × ℕ)
      → List LessonRow
      → Result SyncError (List (Text × ℕ) × List LessonRow)
  insert_lessons snapshot_id [] ids rows = ok (ids, rows)
  insert_lessons snapshot_id (lesson ∷ lessons) ids rows =
      let id = f.lesson_ids.next rows in
      let row : LessonRow = record {
        id = id;
        snapshot_id = snapshot_id;
        lesson_key = lesson_key lesson;
        lesson = lesson;
      } in
      let rest =
        insert_lessons snapshot_id lessons (ids ++ (lesson_key lesson, id) ∷ [])
          (rows ++ row ∷ []) in
      if exists (λ entry. text_eq (lesson_key lesson) entry.0) ids
      then raise (SyncError.state_error "duplicate lesson identities")
      else rest

  -- The snapshot that has the same content.
  unfoldable pub same_content : ScheduleSnapshot → ℕ → SnapshotRow → Bool
  same_content snapshot week_start row =
      text_eq row.source snapshot.source
      && (text_eq row.group_key snapshot.group_key
          && (row.week_start == week_start
              && text_eq row.content_hash (content_hash f.unicode f.digest snapshot)))

  abbrev pub stored_or_new :
      ScheduleSnapshot
      → ℕ
      → WeekParity
      → Store
      → Option SnapshotRow
      → Result SyncError ((StoredVersion × Bool) × Store)
  stored_or_new snapshot week_start parity store (some existing) = do
    _ ←
        raise_if (not existing.is_complete)
          (SyncError.state_error "matching snapshot is incomplete")
    version ← load_version f store existing
    ok ((version, false), store)
  stored_or_new snapshot week_start parity store none = do
    let row : SnapshotRow = record {
      id = f.snapshot_ids.next store.snapshots;
      source = snapshot.source;
      group_key = snapshot.group_key;
      week_start = week_start;
      fetched_at = snapshot.fetched_at;
      content_hash = content_hash f.unicode f.digest snapshot;
      is_complete = true;
      raw_parity = words (parity_value parity);
    }
    inserted ← insert_lessons row.id snapshot.lessons [] store.lessons
    ok (
      (record { row = row; snapshot = snapshot; lesson_ids = inserted.0 }, true),
      record store { snapshots = store.snapshots ++ row ∷ []; lessons = inserted.1 },
    )

  -- `store_snapshot`
  unfoldable pub store_snapshot :
      ScheduleSnapshot → ℕ → WeekParity → Store → Result SyncError ((StoredVersion × Bool) × Store)
  store_snapshot snapshot week_start parity store =
      stored_or_new snapshot week_start parity store
        (first_where (same_content snapshot week_start) store.snapshots)

  abbrev pub canonical_of : Option Lesson → Option Canonical
  canonical_of none = none
  canonical_of (some lesson) = some (canonical f.unicode lesson)

  -- `ScheduleChange.fingerprint`
  unfoldable pub fingerprint : ScheduleChange → Text
  fingerprint change =
      f.change_digest change.kind (canonical_of change.before) (canonical_of change.after)

  -- The row of a changed lesson, which must be there.
  abbrev pub changed_lesson : String → List (Text × ℕ) → Option Lesson → Result SyncError (Option ℕ)
  changed_lesson message ids none = ok none
  changed_lesson message ids (some lesson) =
      or_missing message true (lesson_id_of (lesson_key lesson) ids)

  -- The body of the loop of `store_changes` for a change that is not stored.
  abbrev pub change_row :
      StoredVersion
      → StoredVersion
      → ℕ
      → List ChangeRow
      → ScheduleChange
      → Result SyncError ChangeRow
  change_row previous current detected_at rows change = do
    before_id ← changed_lesson "missing from previous snapshot" previous.lesson_ids change.before
    after_id ← changed_lesson "missing from current snapshot" current.lesson_ids change.after
    ok (record {
      id = f.change_ids.next rows;
      from_snapshot_id = previous.row.id;
      to_snapshot_id = current.row.id;
      before_lesson_id = before_id;
      after_lesson_id = after_id;
      kind = change.kind;
      fingerprint = fingerprint change;
      detected_at = detected_at;
    })

  -- The change gets a row, and the loop goes on.
  abbrev pub saved_change :
      StoredVersion
      → StoredVersion
      → ℕ
      → List ChangeRow
      → ScheduleChange
      → (ChangeRow → Result SyncError ((List ScheduleChange × List ℕ) × List ChangeRow))
      → Result SyncError ((List ScheduleChange × List ℕ) × List ChangeRow)
  saved_change previous current detected_at rows change next = do
    row ← change_row previous current detected_at rows change
    rest ← next row
    ok (saved_first change row.id rest)

  unfoldable pub save_changes :
      StoredVersion
      → StoredVersion
      → ℕ
      → List ScheduleChange
      → List ChangeRow
      → Result SyncError ((List ScheduleChange × List ℕ) × List ChangeRow)
  save_changes previous current detected_at [] rows = ok (([], []), rows)
  save_changes previous current detected_at (change ∷ changes) rows =
      let skipped = save_changes previous current detected_at changes rows in
      let saved =
        saved_change previous current detected_at rows change
          (λ row. save_changes previous current detected_at changes (rows ++ row ∷ [])) in
      if is_stored current.row.id (fingerprint change) rows then skipped else saved

  -- `store_changes`
  unfoldable pub store_changes :
      Option StoredVersion
      → StoredVersion
      → List ScheduleChange
      → ℕ
      → Store
      → Result SyncError ((List ScheduleChange × List ℕ) × Store)
  store_changes none current changes detected_at store = ok (([], []), store)
  store_changes (some previous) current changes detected_at store = do
    (answer, rows) ← save_changes previous current detected_at changes store.changes
    ok (answer, record store { changes = rows })
