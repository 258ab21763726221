-- ===== src/Schedule/Store/Loading.antt =====
-- The loading half of `_ScheduleRepository` of src/szs_hub/schedule/service.py: a snapshot with its
-- lessons, the marker of a week, and the confirmation.
use gasu_schedule_bot.Base.{
  ℕ, compare, Bool, true, false, ◌&&◌, ◌||◌, Option, none, some, List, [], ◌∷◌, map, ◌==◌,
  if◌then◌else◌, exists, Text, text_eq, text_compare, ◌⊕◌, is_less, sorted, Result, ok, raise,
  ◌>>=◌,
}
use gasu_schedule_bot.Sql.{select_where, first_by}
use gasu_schedule_bot.Schedule.Lesson.{
  Unicode, Lesson, ScheduleError, ScheduleSnapshot, check_lesson, content_hash,
}
use gasu_schedule_bot.Schedule.Store.{
  SyncError, Field, Marker, MarkerRow, SnapshotRow, LessonRow, Store, Formats, confirmation_schema,
  failed_text, optional_parity, optional_failure, optional_datetime, is_words, StoredVersion,
  Confirmation, null, number,
}

-- Two equal keys in a list.
unfoldable pub has_duplicates : List Text → Bool
has_duplicates [] = false
has_duplicates (k ∷ ks) = exists (text_eq k) ks || has_duplicates ks

-- `_to_domain_lesson` of every row.
abbrev pub domain_lesson : LessonRow → Result ScheduleError Unit → Result SyncError Lesson
domain_lesson row (raise error) = raise (SyncError.lesson_error error)
domain_lesson row (ok _) = ok row.lesson

unfoldable pub domain_lessons : Unicode → List LessonRow → Result SyncError (List Lesson)
domain_lessons u [] = ok []
domain_lessons u (row ∷ rows) = do
  lesson ← domain_lesson row (check_lesson u row.lesson)
  lessons ← domain_lessons u rows
  ok (lesson ∷ lessons)

-- ORDER BY day, starts_at, lesson_key
unfoldable pub row_before : LessonRow → LessonRow → Bool
row_before a b = is_less (
    compare a.lesson.day b.lesson.day
    ⊕ compare a.lesson.starts_at b.lesson.starts_at
    ⊕ text_compare a.lesson_key b.lesson_key)

-- The two checks of what was loaded: of the hash, and of the lessons' identities.
abbrev pub checked_version :
    SnapshotRow → ScheduleSnapshot → List LessonRow → Bool → Bool → Result SyncError StoredVersion
checked_version row snapshot rows false duplicates =
    raise (SyncError.state_error "snapshot hash does not match its lessons")
checked_version row snapshot rows true true =
    raise (SyncError.state_error "duplicate lesson identities")
checked_version row snapshot rows true false =
    ok
      (record { row = row; snapshot = snapshot; lesson_ids = map (λ l. (l.lesson_key, l.id)) rows })

abbrev pub rows_of : Store → SnapshotRow → List LessonRow
rows_of store row = sorted row_before (select_where (λ l. l.snapshot_id == row.id) store.lessons)

abbrev pub snapshot_of : SnapshotRow → List Lesson → ScheduleSnapshot
snapshot_of row lessons = record {
  source = row.source;
  group_key = row.group_key;
  fetched_at = row.fetched_at;
  lessons = lessons;
}

-- `_load_version`
unfoldable pub load_version : Formats → Store → SnapshotRow → Result SyncError StoredVersion
load_version f store row = do
  lessons ← domain_lessons f.unicode (rows_of store row)
  checked_version row (snapshot_of row lessons) (rows_of store row)
      (text_eq (content_hash f.unicode f.digest (snapshot_of row lessons)) row.content_hash)
      (has_duplicates (map (λ l. l.lesson_key) (rows_of store row)))

-- `session.get(SystemSetting, key)` and `session.get(ScheduleSnapshot, id)`
unfoldable pub find_marker : Text → List MarkerRow → Option MarkerRow
find_marker key [] = none
find_marker key (row ∷ rows) =
    let later = find_marker key rows in if text_eq row.key key then some row else later

unfoldable pub find_snapshot : ℕ → List SnapshotRow → Option SnapshotRow
find_snapshot id [] = none
find_snapshot id (row ∷ rows) =
    let later = find_snapshot id rows in if row.id == id then some row else later

-- ORDER BY fetched_at DESC, id DESC
unfoldable pub newer_snapshot : SnapshotRow → SnapshotRow → Bool
newer_snapshot a b = is_less (compare b.fetched_at a.fetched_at ⊕ compare b.id a.id)

module _ (f : Formats) (source group_key : Text) (week_start : ℕ) where
  -- A complete snapshot of this week.
  unfoldable pub is_of_week : SnapshotRow → Bool
  is_of_week row =
      row.is_complete
      && (text_eq row.source source
          && (text_eq row.group_key group_key && row.week_start == week_start))

  -- The object is a marker of this week.
  unfoldable pub is_marker : Marker → Bool
  is_marker m =
      is_words confirmation_schema m.schema
      && (is_words source m.source
          && (is_words group_key m.group_key && is_words (f.date_text week_start) m.week_start))

  abbrev pub confirmation_of : Marker → Option StoredVersion → Confirmation
  confirmation_of m version = record {
    version = version;
    confirmed_at = optional_datetime f m.confirmed_at;
    parity = optional_parity m.parity;
    last_attempt_failed = is_words failed_text m.last_attempt_status;
    failure = optional_failure m.last_failure;
  }

  abbrev pub with_version :
      Store → Marker → SnapshotRow → Bool → Result SyncError (Option Confirmation)
  with_version store m row false = ok none
  with_version store m row true = do
    version ← load_version f store row
    ok (some (confirmation_of m (some version)))

  abbrev pub with_row : Store → Marker → Option SnapshotRow → Result SyncError (Option Confirmation)
  with_row store m none = ok none
  with_row store m (some row) = with_version store m row (is_of_week row)

  abbrev pub with_id : Store → Marker → Field → Result SyncError (Option Confirmation)
  with_id store m null = ok (some (confirmation_of m none))
  with_id store m (number id) = with_row store m (find_snapshot id store.snapshots)
  with_id store m _ = ok none

  -- `_load_marker`
  unfoldable pub load_marker : Store → Option Marker → Result SyncError (Option Confirmation)
  load_marker store none = ok none
  load_marker store (some m) =
      let read = with_id store m m.snapshot_id in if is_marker m then read else ok none

  abbrev pub load_found : Store → Option MarkerRow → Result SyncError (Option Confirmation)
  load_found store none = ok none
  load_found store (some row) = load_marker store row.value

  abbrev pub unconfirmed : Confirmation
  unconfirmed = record {
    version = none;
    confirmed_at = none;
    parity = none;
    last_attempt_failed = false;
    failure = none;
  }

  -- Without a readable marker: the newest complete snapshot.
  abbrev pub from_row : Store → Option SnapshotRow → Result SyncError Confirmation
  from_row store none = ok unconfirmed
  from_row store (some row) = do
    version ← load_version f store row
    ok (record unconfirmed {
      version = some version;
      confirmed_at = some row.fetched_at;
      parity = optional_parity row.raw_parity;
    })

  abbrev pub parsed_or : Store → Option Confirmation → Result SyncError Confirmation
  parsed_or store (some confirmation) = ok confirmation
  parsed_or store none =
      from_row store (first_by newer_snapshot (select_where is_of_week store.snapshots))

  -- `load_confirmation`
  unfoldable pub load_confirmation : Store → Result SyncError Confirmation
  load_confirmation store = do
    parsed ←
        load_found store
          (find_marker (f.confirmation_key source group_key week_start) store.markers)
    parsed_or store parsed
