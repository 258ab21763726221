-- ===== src/Schedule/Coordinator/Tests.antt =====
-- A week whose source is down.
use gasu_schedule_bot.Base.{
  ◌≡◌, refl, true, false, some, [], ◌∷◌, Text, aware, sorted, insert, ok, raise,
}
use gasu_schedule_bot.Sql.{select_where}
use gasu_schedule_bot.Schedule.Lesson.{lstrip, rstrip, content_hash, canonical, check_lesson}
use gasu_schedule_bot.Schedule.Page.{WeekParity, SourceError, strip}
use gasu_schedule_bot.Schedule.Week.{parity_for_week}
use gasu_schedule_bot.Schedule.Store.{
  SourceFailure, Store, spbgasu, optional_parity, optional_failure, optional_datetime,
}
use gasu_schedule_bot.Schedule.Store.Loading.{
  find_marker, load_marker, is_marker, find_snapshot, is_of_week, load_version, domain_lessons,
  has_duplicates, load_confirmation,
}
use gasu_schedule_bot.Schedule.Sync.{
  served, freshness_of, validate_request, record_failed_attempt, latest_confirmed, sync_failed,
  load_latest_confirmed,
}
use gasu_schedule_bot.Schedule.Sync.Saving.Call.{sync_week}
use gasu_schedule_bot.Schedule.Sync.Tests.{
  whole_numbers, week_formats, formats, store, version, confirmation, confirmed,
}
use gasu_schedule_bot.Schedule.Coordinator.{ScheduleAccess, monday_for, refresh, get_week}
use gasu_schedule_bot.Schedule.Coordinator.Kept.{Keeps, get_week-Keeps}

abbrev group : Text
group = 103 ∷ []

abbrev answer : ScheduleAccess × Store
answer = (
  record {
    schedule =
        served 1 (some WeekParity.numerator)
          (freshness_of 60 101 (some 5) (some SourceFailure.source_unavailable) true)
          (some version);
    refresh_attempted = true;
    bootstrap_available = true;
    changes = [];
    change_ids = [];
  },
  record_failed_attempt formats group 1 101 SourceFailure.source_unavailable confirmation store,
)

-- The confirmation of the moment 5 is no longer fresh at 100, and the source is asked in vain.
asked :
    get_week formats week_formats whole_numbers 60 true group 1 false
      (aware 100)
      (ok 5)
      1
      (raise SourceError.unavailable)
      (aware 101)
      store
    ≡ ok answer
unfolding get_week load_latest_confirmed latest_confirmed validate_request lstrip rstrip
    load_confirmation find_marker load_marker is_marker find_snapshot is_of_week load_version
    select_where sorted insert domain_lessons check_lesson content_hash canonical has_duplicates
    optional_parity optional_failure optional_datetime freshness_of refresh parity_for_week
    monday_for sync_week sync_failed
asked = refl

stripped : load_confirmation formats spbgasu (strip formats.unicode group) 1 store ≡ ok confirmation
unfolding lstrip rstrip
stripped = confirmed

get_week-Keeps_example :
    Keeps formats week_formats whole_numbers 60 true group 1 store confirmation stripped answer
get_week-Keeps_example =
    get_week-Keeps formats week_formats whole_numbers 60 true group 1 store confirmation stripped
      false (aware 100) (aware 101) (ok 5) 1 SourceError.unavailable refl asked
