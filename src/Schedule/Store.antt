-- ===== src/Schedule/Store.antt =====
-- What the database keeps of the timetable: the tables of snapshots, lessons and changes
-- (src/szs_hub/storage/models.py), the confirmation marker of a week, and the data types of
-- src/szs_hub/schedule/service.py. Hashes and the ISO forms of dates are parameters.
pub mod Loading
use gasu_schedule_bot.Base.{
  ℕ, ◌≡◌, compare, Bool, true, false, ◌&&◌, ◌||◌, Option, none, some, List, [], ◌∷◌, map, ◌==◌,
  if◌then◌else◌, exists, Text, text_eq, text_compare, ◌⊕◌, is_less, sorted, DateTime, aware, String,
  Result, ok, raise, ◌>>=◌,
}
use gasu_schedule_bot.Sql.{select_where, first_by, RowIds}
use gasu_schedule_bot.Schedule.Lesson.{
  Unicode, Lesson, Canonical, ScheduleError, ScheduleSnapshot, ChangeKind, check_lesson,
  content_hash,
}
use gasu_schedule_bot.Schedule.Page.{WeekParity, SourceError}

pub data FreshnessState : Type 0 where
  fresh stale unavailable : FreshnessState

pub data SourceFailure : Type 0 where
  source_unavailable group_not_found invalid_response : SourceFailure

pub data SyncError : Type 0 where
  -- `ScheduleStateError`
  state_error : String → SyncError
  lesson_error : ScheduleError → SyncError
  -- An error of the source's code that is not a `SpbGasuError`.
  value_error : SourceError → SyncError
  naive_clock : SyncError
  empty_group : SyncError
  not_monday : SyncError

-- A value in the marker's JSON object: what `dict.get` gives, `null` where the key is missing.
pub data Field : Type 0 where
  null : Field
  words : Text → Field
  number : ℕ → Field
  other : Field

-- The entries of the object that the code reads, which are those that it writes.
pub record Marker : Type 0 where
  pub schema : Field
  pub source : Field
  pub group_key : Field
  pub week_start : Field
  pub snapshot_id : Field
  pub confirmed_at : Field
  pub parity : Field
  pub last_attempt_status : Field
  pub last_failure : Field

-- The row of `system_settings` with the marker; its value may be no object.
pub record MarkerRow : Type 0 where
  pub key : Text
  pub value : Option Marker
  pub updated_at : ℕ

pub record SnapshotRow : Type 0 where
  pub id : ℕ
  pub source : Text
  pub group_key : Text
  pub week_start : ℕ
  pub fetched_at : ℕ
  pub content_hash : Text
  pub is_complete : Bool
  -- `raw_payload.get("parity")`, `null` where the payload is no object.
  pub raw_parity : Field

pub record LessonRow : Type 0 where
  pub id : ℕ
  pub snapshot_id : ℕ
  pub lesson_key : Text
  pub lesson : Lesson

pub record ChangeRow : Type 0 where
  pub id : ℕ
  pub from_snapshot_id : ℕ
  pub to_snapshot_id : ℕ
  pub before_lesson_id : Option ℕ
  pub after_lesson_id : Option ℕ
  pub kind : ChangeKind
  pub fingerprint : Text
  pub detected_at : ℕ

pub record Store : Type 0 where
  pub snapshots : List SnapshotRow
  pub lessons : List LessonRow
  pub changes : List ChangeRow
  pub markers : List MarkerRow

abbrev pub snapshot_key : SnapshotRow → ℕ
snapshot_key row = row.id

abbrev pub lesson_row_key : LessonRow → ℕ
lesson_row_key row = row.id

abbrev pub change_row_key : ChangeRow → ℕ
change_row_key row = row.id

pub record Formats : Type 0 where
  pub unicode : Unicode
  -- `content_hash`, `_lesson_key` and `fingerprint`: SHA-256 of the JSON of canonical forms.
  pub digest : List Canonical → Text
  pub lesson_digest : Canonical → Text
  pub change_digest : ChangeKind → Option Canonical → Option Canonical → Text
  -- `_confirmation_key`
  pub confirmation_key : Text → Text → ℕ → Text
  pub date_text : ℕ → Text
  -- `datetime.isoformat` in UTC, and `datetime.fromisoformat`, which reads it back.
  pub datetime_text : ℕ → Text
  pub parse_datetime : Text → Option DateTime
  pub parse-datetime_text : (t : ℕ) → parse_datetime (datetime_text t) ≡ some (aware t)
  pub snapshot_ids : RowIds snapshot_key
  pub lesson_ids : RowIds lesson_row_key
  pub change_ids : RowIds change_row_key

-- "szs_hub.schedule_confirmation.v1"
abbrev pub confirmation_schema : Text
confirmation_schema =
    115 ∷ 122 ∷ 115 ∷ 95 ∷ 104 ∷ 117 ∷ 98 ∷ 46 ∷ 115 ∷ 99 ∷ 104 ∷ 101 ∷ 100 ∷ 117 ∷ 108 ∷ 101 ∷ 95
    ∷ 99 ∷ 111 ∷ 110 ∷ 102 ∷ 105 ∷ 114 ∷ 109 ∷ 97 ∷ 116 ∷ 105 ∷ 111 ∷ 110 ∷ 46 ∷ 118 ∷ 49 ∷ []

-- "spbgasu"
abbrev pub spbgasu : Text
spbgasu = 115 ∷ 112 ∷ 98 ∷ 103 ∷ 97 ∷ 115 ∷ 117 ∷ []

-- "числ."
abbrev pub numerator_text : Text
numerator_text = 1095 ∷ 1080 ∷ 1089 ∷ 1083 ∷ 46 ∷ []

-- "знам."
abbrev pub denominator_text : Text
denominator_text = 1079 ∷ 1085 ∷ 1072 ∷ 1084 ∷ 46 ∷ []

-- "failed"
abbrev pub failed_text : Text
failed_text = 102 ∷ 97 ∷ 105 ∷ 108 ∷ 101 ∷ 100 ∷ []

-- "succeeded"
abbrev pub succeeded_text : Text
succeeded_text = 115 ∷ 117 ∷ 99 ∷ 99 ∷ 101 ∷ 101 ∷ 100 ∷ 101 ∷ 100 ∷ []

-- "source_unavailable"
abbrev pub unavailable_text : Text
unavailable_text =
    115 ∷ 111 ∷ 117 ∷ 114 ∷ 99 ∷ 101 ∷ 95 ∷ 117 ∷ 110 ∷ 97 ∷ 118 ∷ 97 ∷ 105 ∷ 108 ∷ 97 ∷ 98 ∷ 108
    ∷ 101 ∷ []

-- "group_not_found"
abbrev pub not_found_text : Text
not_found_text =
    103 ∷ 114 ∷ 111 ∷ 117 ∷ 112 ∷ 95 ∷ 110 ∷ 111 ∷ 116 ∷ 95 ∷ 102 ∷ 111 ∷ 117 ∷ 110 ∷ 100 ∷ []

-- "invalid_response"
abbrev pub invalid_text : Text
invalid_text =
    105 ∷ 110 ∷ 118 ∷ 97 ∷ 108 ∷ 105 ∷ 100 ∷ 95 ∷ 114 ∷ 101 ∷ 115 ∷ 112 ∷ 111 ∷ 110 ∷ 115 ∷ 101 ∷ []

-- `parity.value`
abbrev pub parity_value : WeekParity → Text
parity_value WeekParity.numerator = numerator_text
parity_value WeekParity.denominator = denominator_text

abbrev pub failure_value : SourceFailure → Text
failure_value SourceFailure.source_unavailable = unavailable_text
failure_value SourceFailure.group_not_found = not_found_text
failure_value SourceFailure.invalid_response = invalid_text

-- `_optional_parity`
unfoldable pub optional_parity : Field → Option WeekParity
optional_parity (words t) =
    if text_eq t numerator_text
    then some WeekParity.numerator
    else if text_eq t denominator_text
    then some WeekParity.denominator
    else none
optional_parity _ = none

-- `_optional_failure`
unfoldable pub optional_failure : Field → Option SourceFailure
optional_failure (words t) =
    if text_eq t unavailable_text
    then some SourceFailure.source_unavailable
    else if text_eq t not_found_text
    then some SourceFailure.group_not_found
    else if text_eq t invalid_text
    then some SourceFailure.invalid_response
    else none
optional_failure _ = none

abbrev pub zoned : Option DateTime → Option ℕ
zoned (some (aware t)) = some t
zoned _ = none

-- `_optional_datetime`
unfoldable pub optional_datetime : Formats → Field → Option ℕ
optional_datetime f (words t) = zoned (f.parse_datetime t)
optional_datetime f _ = none

abbrev pub is_words : Text → Field → Bool
is_words t (words s) = text_eq s t
is_words t _ = false

pub record StoredVersion : Type 0 where
  pub row : SnapshotRow
  pub snapshot : ScheduleSnapshot
  pub lesson_ids : List (Text × ℕ)

pub record Confirmation : Type 0 where
  pub version : Option StoredVersion
  pub confirmed_at : Option ℕ
  pub parity : Option WeekParity
  pub last_attempt_failed : Bool
  pub failure : Option SourceFailure
