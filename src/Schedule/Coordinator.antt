-- ===== src/Schedule/Coordinator.antt =====
-- `ScheduleCoordinator` of src/szs_hub/schedule/coordinator.py: a week is fetched only when what is
-- confirmed is not fresh. The bootstrap page, the source's answer and the clock are arguments.
pub mod Kept
mod Tests
use gasu_schedule_bot.Base.{
  ℕ, ◌+◌, ◌-◌, Bool, true, false, ◌&&◌, not, Option, none, some, List, [], ◌==◌, if◌then◌else◌,
  Text, DateTime, Result, ok, raise, raise_if, ◌>>=◌,
}
use gasu_schedule_bot.Schedule.Lesson.{ScheduleChange}
use gasu_schedule_bot.Schedule.Diff.{Floats}
use gasu_schedule_bot.Schedule.Page.{WeekParity, WeeklySchedule, SourceError, weekday_of}
use gasu_schedule_bot.Schedule.Week.{WeekFormats, parity_for_week}
use gasu_schedule_bot.Schedule.Store.{FreshnessState, SyncError, Store, Formats}
use gasu_schedule_bot.Schedule.Sync.{ConfirmedSchedule, SyncResult, load_latest_confirmed}
use gasu_schedule_bot.Schedule.Sync.Saving.Call.{sync_week}

pub record ScheduleAccess : Type 0 where
  pub schedule : Option ConfirmedSchedule
  pub refresh_attempted : Bool
  pub bootstrap_available : Bool
  pub changes : List ScheduleChange
  pub change_ids : List ℕ

abbrev pub is_fresh_state : FreshnessState → Bool
is_fresh_state FreshnessState.fresh = true
is_fresh_state _ = false

abbrev pub is_fresh : Option ConfirmedSchedule → Bool
is_fresh none = false
is_fresh (some schedule) = is_fresh_state schedule.freshness.state

abbrev pub unchanged_access : Option ConfirmedSchedule → Bool → Bool → ScheduleAccess
unchanged_access schedule attempted available = record {
  schedule = schedule;
  refresh_attempted = attempted;
  bootstrap_available = available;
  changes = [];
  change_ids = [];
}

abbrev pub synced_access : SyncResult → ScheduleAccess
synced_access result = record {
  schedule = result.schedule;
  refresh_attempted = true;
  bootstrap_available = true;
  changes = result.changes;
  change_ids = result.change_ids;
}

-- `monday_for`
unfoldable pub monday_for : ℕ → ℕ
monday_for day = day - weekday_of day

-- The errors of the bootstrap that are `SpbGasuError`s are answered with what is confirmed.
abbrev pub is_source_error : SourceError → Bool
is_source_error SourceError.unavailable = true
is_source_error SourceError.group_not_found = true
is_source_error (SourceError.protocol _) = true
is_source_error _ = false

abbrev pub parity_error : Result SourceError WeekParity → Result SyncError WeekParity
parity_error (ok parity) = ok parity
parity_error (raise error) = raise (SyncError.value_error error)

-- `sync_week` after the bootstrap gave the number of the current week.
module _ (f : Formats) (wf : WeekFormats) (floats : Floats) (fresh_for : ℕ) (retain : Bool)
    (group_key : Text) where
  unfoldable pub refresh :
      ℕ
      → ℕ
      → ℕ
      → Result SourceError WeeklySchedule
      → DateTime
      → Store
      → Result SyncError (ScheduleAccess × Store)
  refresh week_start number today fetched clock store = do
    parity ← parity_error (parity_for_week number (monday_for today) week_start)
    (result, store') ←
        sync_week f wf floats fresh_for retain group_key week_start parity fetched clock store
    ok (synced_access result, store')

  abbrev pub after_bootstrap :
      Option ConfirmedSchedule
      → ℕ
      → Result SourceError ℕ
      → ℕ
      → Result SourceError WeeklySchedule
      → DateTime
      → Store
      → Result SyncError (ScheduleAccess × Store)
  after_bootstrap confirmed week_start (raise error) today fetched clock store =
      if is_source_error error
      then ok (unchanged_access confirmed true false, store)
      else raise (SyncError.value_error error)
  after_bootstrap confirmed week_start (ok number) today fetched clock store =
      refresh week_start number today fetched clock store

  -- `get_week`; the two clocks are the readings of the loading and of the synchronization.
  unfoldable pub get_week :
      ℕ
      → Bool
      → DateTime
      → Result SourceError ℕ
      → ℕ
      → Result SourceError WeeklySchedule
      → DateTime
      → Store
      → Result SyncError (ScheduleAccess × Store)
  get_week week_start force_refresh loading bootstrap today fetched clock store = do
    _ ← raise_if (not (weekday_of week_start == 0)) SyncError.not_monday
    confirmed ← load_latest_confirmed f fresh_for loading group_key week_start store
    let refreshed = after_bootstrap confirmed week_start bootstrap today fetched clock store
    (if not force_refresh && is_fresh confirmed
        then ok (unchanged_access confirmed false true, store)
        else refreshed)
