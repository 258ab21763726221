-- ===== src/Schedule/Sync.antt =====
-- `ScheduleSyncService` of src/szs_hub/schedule/service.py: freshness, the marker, and the failed call.
-- The client's answer and the clock's reading are arguments; a call runs under the service's lock.
pub mod Saving
pub mod Rows
pub mod Loaded
pub mod Failed
pub mod Once
pub mod Confirmed
pub mod Stored
pub mod Tests
use gasu_schedule_bot.Base.{
  ℕ, ◌+◌, ◌-◌, Bool, true, false, ◌&&◌, ◌||◌, not, Option, none, some, List, [], ◌∷◌, ◌++◌, map,
  ltb, leb, ◌==◌, if◌then◌else◌, exists, Text, text_eq, DateTime, aware, naive, String, Result, ok,
  raise, raise_if, ◌>>=◌,
}
use gasu_schedule_bot.Base.Int.{ℤ, pos, negsuc}
use gasu_schedule_bot.Sql.{update_where, RowIds}
use gasu_schedule_bot.Attendance.Service.{first_where}
use gasu_schedule_bot.Schedule.Lesson.{
  Unicode, Lesson, Canonical, ScheduleError, ScheduleSnapshot, ScheduleChange, canonical,
  content_hash, lstrip, rstrip,
}
use gasu_schedule_bot.Schedule.Diff.{Floats, diff_schedules}
use gasu_schedule_bot.Schedule.Page.{WeekParity, WeeklySchedule, SourceError, weekday_of, strip}
use gasu_schedule_bot.Schedule.Week.{WeekFormats, materialize_week}
use gasu_schedule_bot.Schedule.Store.{
  FreshnessState, SourceFailure, SyncError, Field, null, words, number, Marker, MarkerRow,
  SnapshotRow, LessonRow, ChangeRow, Store, Formats, confirmation_schema, spbgasu, failed_text,
  succeeded_text, parity_value, failure_value, StoredVersion, Confirmation,
}
use gasu_schedule_bot.Schedule.Store.Loading.{load_version, find_marker, load_confirmation}

pub record Freshness : Type 0 where
  pub state : FreshnessState
  pub checked_at : ℕ
  pub confirmed_at : Option ℕ
  pub confirmation_age : Option ℤ
  pub fresh_for : ℕ
  pub source_failure : Option SourceFailure

pub record ConfirmedSchedule : Type 0 where
  pub snapshot_id : ℕ
  pub snapshot : ScheduleSnapshot
  pub week_start : ℕ
  pub parity : Option WeekParity
  pub freshness : Freshness

pub record SyncResult : Type 0 where
  pub schedule : Option ConfirmedSchedule
  pub freshness : Freshness
  pub snapshot_created : Bool
  pub changes : List ScheduleChange
  pub change_ids : List ℕ

-- `checked_at - confirmed_at`
abbrev pub difference : ℕ → ℕ → ℤ
difference a b = if leb b a then pos (a - b) else negsuc (b - a - 1)

-- `timedelta(0) <= age <= fresh_for`
abbrev pub is_recent : ℕ → ℕ → ℕ → Bool
is_recent fresh_for checked_at confirmed_at =
    leb confirmed_at checked_at && leb (checked_at - confirmed_at) fresh_for

-- `_freshness`
unfoldable pub freshness_of : ℕ → ℕ → Option ℕ → Option SourceFailure → Bool → Freshness
freshness_of fresh_for checked_at none failure force_stale = record {
  state = FreshnessState.unavailable;
  checked_at = checked_at;
  confirmed_at = none;
  confirmation_age = none;
  fresh_for = fresh_for;
  source_failure = failure;
}
freshness_of fresh_for checked_at (some confirmed_at) failure force_stale = record {
  state =
      if not force_stale && is_recent fresh_for checked_at confirmed_at
      then FreshnessState.fresh
      else FreshnessState.stale;
  checked_at = checked_at;
  confirmed_at = some confirmed_at;
  confirmation_age = some (difference checked_at confirmed_at);
  fresh_for = fresh_for;
  source_failure = failure;
}

abbrev pub served :
    ℕ → Option WeekParity → Freshness → Option StoredVersion → Option ConfirmedSchedule
served week_start parity freshness none = none
served week_start parity freshness (some version) = some (record {
  snapshot_id = version.row.id;
  snapshot = version.snapshot;
  week_start = week_start;
  parity = parity;
  freshness = freshness;
})

-- `_confirmed_schedule`
abbrev pub confirmed_schedule : ℕ → Freshness → Confirmation → Option ConfirmedSchedule
confirmed_schedule week_start freshness c = served week_start c.parity freshness c.version

-- `_aware_utc`
abbrev pub aware_utc : DateTime → Result SyncError ℕ
aware_utc (aware t) = ok t
aware_utc (naive t) = raise SyncError.naive_clock

-- `_validate_request`
unfoldable pub validate_request : Unicode → Text → ℕ → Result SyncError Text
validate_request u group_key week_start = do
  _ ← raise_if (text_eq (strip u group_key) []) SyncError.empty_group
  _ ← raise_if (not (weekday_of week_start == 0)) SyncError.not_monday
  ok (strip u group_key)

abbrev pub put_marker :
    Text → Option Marker → ℕ → Option MarkerRow → List MarkerRow → List MarkerRow
put_marker key value checked_at none markers =
    markers ++ record { key = key; value = value; updated_at = checked_at } ∷ []
put_marker key value checked_at (some _) markers =
    update_where (λ row. text_eq row.key key)
      (λ row. record row { value = value; updated_at = checked_at }) markers

-- `_write_marker`
unfoldable pub write_marker : Text → Marker → ℕ → Store → Store
write_marker key value checked_at store = record store {
  markers = put_marker key (some value) checked_at (find_marker key store.markers) store.markers;
}

abbrev pub field_of {ℓ} : {A : Type ℓ} → (A → Field) → Option A → Field
field_of f none = null
field_of f (some a) = f a

module _ (f : Formats) (group_key : Text) (week_start : ℕ) where
  abbrev pub marker_key : Text
  marker_key = f.confirmation_key spbgasu group_key week_start

  abbrev pub marker_of : Field → Field → Field → Field → Field → Marker
  marker_of snapshot_id confirmed_at parity status failure = record {
    schema = words confirmation_schema;
    source = words spbgasu;
    group_key = words group_key;
    week_start = words (f.date_text week_start);
    snapshot_id = snapshot_id;
    confirmed_at = confirmed_at;
    parity = parity;
    last_attempt_status = status;
    last_failure = failure;
  }

  abbrev pub confirming_marker : ℕ → WeekParity → StoredVersion → Marker
  confirming_marker checked_at parity version =
      marker_of (number version.row.id) (words (f.datetime_text checked_at))
        (words (parity_value parity)) (words succeeded_text) null

  -- `confirm`
  unfoldable pub confirm : ℕ → WeekParity → StoredVersion → Store → Store
  confirm checked_at parity version =
      write_marker marker_key (confirming_marker checked_at parity version) checked_at

  abbrev pub failed_marker : SourceFailure → Confirmation → Marker
  failed_marker failure c =
      marker_of (field_of (λ version. number version.row.id) c.version)
        (field_of (λ t. words (f.datetime_text t)) c.confirmed_at)
        (field_of (λ p. words (parity_value p)) c.parity) (words failed_text)
        (words (failure_value failure))

  -- `record_failed_attempt`
  unfoldable pub record_failed_attempt : ℕ → SourceFailure → Confirmation → Store → Store
  record_failed_attempt checked_at failure c =
      write_marker marker_key (failed_marker failure c) checked_at

  -- `load_latest_confirmed`, after the request has been validated.
  unfoldable pub latest_confirmed : ℕ → ℕ → Store → Result SyncError (Option ConfirmedSchedule)
  latest_confirmed fresh_for checked_at store = do
    c ← load_confirmation f spbgasu group_key week_start store
    ok (
        confirmed_schedule week_start
          (freshness_of fresh_for checked_at c.confirmed_at c.failure c.last_attempt_failed) c)

  -- What a failed call returns, and the store with the attempt.
  abbrev pub failed_answer : ℕ → ℕ → SourceFailure → Store → Confirmation → SyncResult × Store
  failed_answer fresh_for checked_at failure store c =
      let freshness = freshness_of fresh_for checked_at c.confirmed_at (some failure) true in
      (
        record {
          schedule = confirmed_schedule week_start freshness c;
          freshness = freshness;
          snapshot_created = false;
          changes = [];
          change_ids = [];
        },
        record_failed_attempt checked_at failure c store,
      )

  -- The failure path of `sync_week`.
  unfoldable pub sync_failed : ℕ → ℕ → SourceFailure → Store → Result SyncError (SyncResult × Store)
  sync_failed fresh_for checked_at failure store = do
    c ← load_confirmation f spbgasu group_key week_start store
    ok (failed_answer fresh_for checked_at failure store c)

unfoldable pub load_latest_confirmed :
    Formats → ℕ → DateTime → Text → ℕ → Store → Result SyncError (Option ConfirmedSchedule)
load_latest_confirmed f fresh_for clock group_key week_start store = do
  group ← validate_request f.unicode group_key week_start
  checked_at ← aware_utc clock
  latest_confirmed f group week_start fresh_for checked_at store
