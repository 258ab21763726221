-- ===== src/Schedule/Sync/Tests.antt =====
-- Synchronization on a concrete store.
use gasu_schedule_bot.Base.{
  ◌≡◌, ◌≢◌, refl, true, false, Option, none, some, [], ◌∷◌, map, ◌==◌, Text, sorted, insert,
  DateTime, aware, ok, ◌+◌, ◌*◌, compare, ℕ, if◌then◌else◌, text_eq,
}
use gasu_schedule_bot.Sql.{select_where}
use gasu_schedule_bot.Sql.Numbering.{max_plus_one}
use gasu_schedule_bot.Schedule.Lesson.{
  Unicode, Lesson, ScheduleChange, ChangeKind, kind_rank, canonical, content_hash, normalize_text,
  spaced, lstrip, rstrip, folded, check_lesson,
}
use gasu_schedule_bot.Schedule.Page.{WeekParity}
use gasu_schedule_bot.Schedule.Store.{
  FreshnessState, SourceFailure, words, null, number, SnapshotRow, Store, Formats, snapshot_key,
  lesson_row_key, change_row_key, spbgasu, numerator_text, confirmation_schema, succeeded_text,
  StoredVersion, Confirmation, optional_parity, optional_failure, optional_datetime,
}
use gasu_schedule_bot.Schedule.Store.Loading.{
  domain_lessons, has_duplicates, load_version, find_marker, find_snapshot, is_of_week, is_marker,
  load_marker, load_confirmation,
}
use gasu_schedule_bot.Schedule.Sync.{
  SyncResult, served, confirm, freshness_of, latest_confirmed, sync_failed,
}
use gasu_schedule_bot.Schedule.Sync.Failed.{failure_keeps_confirmed}
use gasu_schedule_bot.Schedule.Sync.Saving.{
  store_snapshot, same_content, store_changes, save_changes, is_stored, fingerprint, lesson_id_of,
}
use gasu_schedule_bot.Schedule.Sync.Saving.Call.{sync_answered}
use gasu_schedule_bot.Attendance.Service.{first_where}
use gasu_schedule_bot.Schedule.Diff.{Floats}
use gasu_schedule_bot.Schedule.Week.{WeekFormats}
use gasu_schedule_bot.Schedule.Sync.Stored.{Serves, success_is_read}
use gasu_schedule_bot.Schedule.Sync.Once.{store_changes_twice}

abbrev ascii : Unicode
ascii = record { is_space = λ c. c == 32; casefold = λ c. c ∷ [] }

abbrev parse : Text → Option DateTime
parse [] = none
parse (t ∷ _) = some (aware t)

-- Hashes that tell the lessons of these tests apart.
abbrev pub formats : Formats
formats = record {
  unicode = ascii;
  digest = map (λ c. c.day);
  lesson_digest = λ c. c.subject;
  change_digest = λ kind before after. kind_rank kind ∷ [];
  confirmation_key = λ source group_key week_start. week_start ∷ group_key;
  date_text = λ d. d ∷ [];
  datetime_text = λ t. t ∷ [];
  parse_datetime = parse;
  parse-datetime_text = λ t. refl;
  snapshot_ids = max_plus_one snapshot_key;
  lesson_ids = max_plus_one lesson_row_key;
  change_ids = max_plus_one change_row_key;
}

abbrev lesson : Lesson
lesson = record {
  day = 1;
  starts_at = 100;
  ends_at = 200;
  subject = 97 ∷ [];
  lesson_type = none;
  teacher = none;
  room = none;
  building = none;
  subgroup = none;
  source_id = some (115 ∷ []);
}

abbrev row : SnapshotRow
row = record {
  id = 7;
  source = spbgasu;
  group_key = 103 ∷ [];
  week_start = 1;
  fetched_at = 5;
  content_hash = 1 ∷ [];
  is_complete = true;
  raw_parity = words numerator_text;
}

-- One snapshot of the week that begins on the day 1, confirmed at 5.
abbrev pub store : Store
store = record {
  snapshots = row ∷ [];
  lessons = record { id = 3; snapshot_id = 7; lesson_key = 97 ∷ []; lesson = lesson } ∷ [];
  changes = [];
  markers =
      record {
        key = 1 ∷ 103 ∷ [];
        value = some (record {
          schema = words confirmation_schema;
          source = words spbgasu;
          group_key = words (103 ∷ []);
          week_start = words (1 ∷ []);
          snapshot_id = number 7;
          confirmed_at = words (5 ∷ []);
          parity = words numerator_text;
          last_attempt_status = words succeeded_text;
          last_failure = null;
        });
        updated_at = 5;
      }
      ∷ [];
}

abbrev pub version : StoredVersion
version = record {
  row = row;
  snapshot = record {
    source = spbgasu;
    group_key = 103 ∷ [];
    fetched_at = 5;
    lessons = lesson ∷ [];
  };
  lesson_ids = (97 ∷ [], 3) ∷ [];
}

abbrev pub confirmation : Confirmation
confirmation = record {
  version = some version;
  confirmed_at = some 5;
  parity = some WeekParity.numerator;
  last_attempt_failed = false;
  failure = none;
}

pub confirmed : load_confirmation formats spbgasu (103 ∷ []) 1 store ≡ ok confirmation
unfolding load_confirmation find_marker load_marker is_marker find_snapshot is_of_week load_version
    select_where sorted insert domain_lessons check_lesson lstrip rstrip content_hash canonical
    has_duplicates optional_parity optional_failure optional_datetime
confirmed = refl

failure_keeps_confirmed_example :
    (answer : SyncResult × Store) × (sync_failed formats
        (103 ∷ [])
        1
        60
        9
        SourceFailure.source_unavailable
        store
      ≡ ok answer)
    × (latest_confirmed formats (103 ∷ []) 1 60 10 answer.1
        ≡ ok (
            served 1
              (some WeekParity.numerator)
              (freshness_of 60 10 (some 5) (some SourceFailure.source_unavailable) true)
              (some version)))
    × ((freshness_of 60 10 (some 5) (some SourceFailure.source_unavailable) true).state
        ≢ FreshnessState.fresh)
    × (answer.1.snapshots ≡ store.snapshots)
    × (answer.1.lessons ≡ store.lessons)
    × (answer.1.changes ≡ store.changes)
failure_keeps_confirmed_example =
    failure_keeps_confirmed formats (103 ∷ []) 1 60 9 10 SourceFailure.source_unavailable store
      confirmation (tt, tt) confirmed

-- The next version, with the same lesson under another id.
abbrev next_version : StoredVersion
next_version = record version {
  row = record row { id = 8; content_hash = 2 ∷ [] };
  lesson_ids = (97 ∷ [], 4) ∷ [];
}

abbrev moved : ScheduleChange
moved = record { kind = ChangeKind.time; before = some lesson; after = some lesson }

abbrev with_change : Store
with_change = record store {
  changes =
      record {
        id = 1;
        from_snapshot_id = 7;
        to_snapshot_id = 8;
        before_lesson_id = some 3;
        after_lesson_id = some 4;
        kind = ChangeKind.time;
        fingerprint = 7 ∷ [];
        detected_at = 9;
      }
      ∷ [];
}

stored :
    store_changes formats (some version) next_version (moved ∷ []) 9 store
    ≡ ok ((moved ∷ [], 1 ∷ []), with_change)
unfolding store_changes save_changes is_stored fingerprint lesson_id_of canonical normalize_text
    spaced lstrip rstrip folded
stored = refl

store_changes_twice_example :
    store_changes formats (some version) next_version (moved ∷ []) 20 with_change
    ≡ ok (([], []), with_change)
store_changes_twice_example =
    store_changes_twice formats version next_version (moved ∷ []) 9 20 store stored

abbrev pub whole_numbers : Floats
whole_numbers = record {
  Float = ℕ;
  of_nat = λ n. n;
  plus = ◌+◌;
  times = ◌*◌;
  compared = compare;
  ratio = λ a b. if text_eq a b then 1 else 0;
}

abbrev pub week_formats : WeekFormats
week_formats = record {
  dates = record {
    strptime = λ pattern value. none;
    isoformat = λ day. [];
    slot_search = λ value. none;
  };
  type_search = λ subject. none;
  label = λ mark. [];
  source_id = λ group day weekday slot parity subgroup occurrence. [];
}

-- The same lesson is fetched again at 50.
abbrev again : SyncResult × Store
again = (
  record {
    schedule =
        served 1 (some WeekParity.denominator) (freshness_of 60 50 (some 50) none false)
          (some version);
    freshness = freshness_of 60 50 (some 50) none false;
    snapshot_created = false;
    changes = [];
    change_ids = [];
  },
  confirm formats (103 ∷ []) 1 50 WeekParity.denominator version store,
)

fetched_again :
    sync_answered formats week_formats whole_numbers 60 true
      (103 ∷ [])
      1
      WeekParity.denominator
      50
      (lesson ∷ [])
      store
    ≡ ok again
unfolding sync_answered store_snapshot same_content first_where store_changes save_changes
    load_confirmation find_marker load_marker is_marker find_snapshot is_of_week load_version
    select_where sorted insert domain_lessons check_lesson lstrip rstrip content_hash canonical
    has_duplicates optional_parity optional_failure optional_datetime
fetched_again = refl

success_is_read_example :
    (read : StoredVersion) × Serves formats week_formats whole_numbers 60 true
      (103 ∷ [])
      1
      read
      WeekParity.denominator
      50
      70
      again
success_is_read_example =
    success_is_read formats week_formats whole_numbers 60 true (103 ∷ []) 1 WeekParity.denominator
      50 70 (lesson ∷ []) store (tt, tt) fetched_again
