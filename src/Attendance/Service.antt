-- ===== src/Attendance/Service.antt =====
-- `AttendanceService` of src/szs_hub/attendance/service.py, on its three tables (storage/models.py).
-- A raise rolls the caller's transaction back, so it carries no tables; `integrity_error` is what a
-- flush raises when a UNIQUE or CHECK constraint of the tables fails.
pub mod Closed
pub mod Rows
pub mod Users
pub mod Reactions
pub mod Stale
use mathlib.Core.Option
use gasu_schedule_bot.Base.{
  ℕ, ◌+◌, ◌*◌, max, String, Bool, true, false, ◌&&◌, ◌||◌, not, Option, none, some, List, [], ◌∷◌,
  ◌++◌, length, ltb, leb, ◌==◌, if◌then◌else◌, str_eq, exists, is_empty, ok, raise, ◌>>=◌, ◌>>◌,
  raise_if, DateTime, aware, minutes,
}
use gasu_schedule_bot.Base.Int.{ℤ, int_eq}
use gasu_schedule_bot.Sql.{update_where, select_where, returning, RowIds}
use gasu_schedule_bot.Attendance.{
  AttendanceAction, mark, unmark, ignore_outside_window, AttendanceError, naive_timestamp,
  bad_window, empty_reaction, different_session, integrity_error, Outcome, aware_instant,
  is_empty_text, new_window, Window, ReactionEvent, decide,
}

-- The statuses; `open` is a keyword, so it is `opened`.
pub data SessionStatus : Type 0 where
  scheduled opened closed cancelled : SessionStatus

abbrev pub is_active : SessionStatus → Bool
is_active scheduled = true
is_active opened = true
is_active _ = false

pub record AttendanceSession : Type 0 where
  pub id : ℕ
  pub lesson_id : ℕ
  pub chat_id : ℤ
  pub message_id : ℤ
  pub reaction : String
  pub opens_at : ℕ
  pub closes_at : ℕ
  pub status : SessionStatus
  pub created_at : ℕ

pub record AttendanceMark : Type 0 where
  pub id : ℕ
  pub session_id : ℕ
  pub user_id : ℕ
  pub source_update_id : Option ℤ
  pub marked_at : ℕ
  pub removed_at : Option ℕ

pub record User : Type 0 where
  pub id : ℕ
  pub telegram_user_id : ℤ
  pub username : Option String
  pub display_name : Option String
  pub language_code : Option String
  pub is_bot : Bool
  pub first_seen_at : ℕ
  pub last_seen_at : ℕ

pub record Tables : Type 0 where
  pub sessions : List AttendanceSession
  pub marks : List AttendanceMark
  pub users : List User

pub record AttendanceUpdate : Type 0 where
  pub action : AttendanceAction
  pub session_id : Option ℕ
  pub present_count : Option ℕ

abbrev pub session_key : AttendanceSession → ℕ
session_key s = s.id

abbrev pub mark_key : AttendanceMark → ℕ
mark_key m = m.id

abbrev pub user_key : User → ℕ
user_key u = u.id

-- `session.scalar(select(...))`
unfoldable pub first_where : {R : Type 0} → (R → Bool) → List R → Option R
first_where test [] = none
first_where test (r ∷ rows) = if test r then some r else first_where test rows

abbrev pub of_lesson : ℕ → AttendanceSession → Bool
of_lesson lesson_id s = s.lesson_id == lesson_id

abbrev pub of_message : ℤ → ℤ → AttendanceSession → Bool
of_message chat_id message_id s = int_eq s.chat_id chat_id && int_eq s.message_id message_id

abbrev pub reuse :
    ℤ → ℤ → String → AttendanceSession → Tables → Outcome (AttendanceSession × Tables)
reuse chat_id message_id reaction existing tables =
    if not (int_eq existing.chat_id chat_id)
      || (not (int_eq existing.message_id message_id) || not (str_eq existing.reaction reaction))
    then raise different_session
    else ok (existing, tables)

abbrev pub create : AttendanceSession → Tables → Outcome (AttendanceSession × Tables)
create row tables =
    if exists (of_message row.chat_id row.message_id) tables.sessions
    then raise integrity_error
    else ok (row, record tables { sessions = tables.sessions ++ row ∷ [] })

abbrev pub reuse_or_create :
    AttendanceSession → Option AttendanceSession → Tables → Outcome (AttendanceSession × Tables)
reuse_or_create row none tables = create row tables
reuse_or_create row (some existing) tables =
    reuse row.chat_id row.message_id row.reaction existing tables

-- `strip` is `str.strip`.
unfoldable pub open_session :
    (String → String)
    → RowIds session_key
    → ℕ
    → ℕ
    → ℤ
    → ℤ
    → DateTime
    → ℕ
    → String
    → Tables
    → Outcome (AttendanceSession × Tables)
open_session strip ids created_at lesson_id chat_id message_id starts_at window_minutes reaction
      tables =
    do
      opens ← aware_instant starts_at
      raise_if (ltb window_minutes 5 || ltb 120 window_minutes) bad_window
      raise_if (is_empty_text (strip reaction)) empty_reaction
      reuse_or_create
          (record {
            id = ids.next tables.sessions;
            lesson_id = lesson_id;
            chat_id = chat_id;
            message_id = message_id;
            reaction = strip reaction;
            opens_at = opens;
            closes_at = opens + window_minutes * minutes;
            status = opened;
            created_at = created_at;
          })
          (first_where (of_lesson lesson_id) tables.sessions) tables

-- `value or other`, where an empty text counts as missing.
abbrev pub or_else : Option String → Option String → Option String
or_else none other = other
or_else (some t) other = if is_empty_text t then other else some t

abbrev pub of_telegram_id : ℤ → User → Bool
of_telegram_id id u = int_eq u.telegram_user_id id

abbrev pub seen : Option String → Option String → ℕ → User → User
seen display_name username seen_at user = record user {
  display_name = or_else display_name user.display_name;
  username = or_else username user.username;
  last_seen_at = max user.last_seen_at seen_at;
}

abbrev pub user_and_users :
    User → Option String → Option String → ℕ → Option User → List User → User × List User
user_and_users new display_name username seen_at none users = (new, users ++ new ∷ [])
user_and_users new display_name username seen_at (some user) users = (
  seen display_name username seen_at user,
  update_where (λ u. u.id == user.id) (seen display_name username seen_at) users,
)

-- `_get_or_create_user`
unfoldable pub get_or_create_user :
    RowIds user_key → ℕ → ℤ → Option String → Option String → ℕ → List User → User × List User
get_or_create_user ids clock telegram_user_id display_name username seen_at users =
    user_and_users
      (record {
        id = ids.next users;
        telegram_user_id = telegram_user_id;
        username = username;
        display_name = display_name;
        language_code = none;
        is_bot = false;
        first_seen_at = clock;
        last_seen_at = seen_at;
      })
      display_name username seen_at (first_where (of_telegram_id telegram_user_id) users) users

abbrev pub of_session_user : ℕ → ℕ → AttendanceMark → Bool
of_session_user session_id user_id m = m.session_id == session_id && m.user_id == user_id

-- `_present_count`
unfoldable pub present_count : ℕ → List AttendanceMark → ℕ
present_count session_id marks =
    length (select_where (λ m. m.session_id == session_id && is_empty m.removed_at) marks)

abbrev pub is_marked : Option AttendanceMark → Bool
is_marked none = false
is_marked (some m) = is_empty m.removed_at

-- The MARK and UNMARK branches with their flush, and its CHECK (removed_at >= marked_at).
abbrev pub change_mark :
    RowIds mark_key
    → ℕ
    → ℕ
    → Option ℤ
    → ℕ
    → AttendanceAction
    → Option AttendanceMark
    → List AttendanceMark
    → Outcome (List AttendanceMark)
change_mark ids session_id user_id source occurred_at AttendanceAction.mark none marks = ok (
    marks
    ++ record {
      id = ids.next marks;
      session_id = session_id;
      user_id = user_id;
      source_update_id = source;
      marked_at = occurred_at;
      removed_at = none;
    }
      ∷ [])
change_mark ids session_id user_id source occurred_at AttendanceAction.mark (some m) marks = ok (
    update_where (λ x. x.id == m.id)
      (λ x. record x { marked_at = occurred_at; removed_at = none; source_update_id = source })
      marks)
change_mark ids session_id user_id source occurred_at AttendanceAction.unmark (some m) marks =
    if ltb occurred_at m.marked_at
    then raise integrity_error
    else ok
        (update_where (λ x. x.id == m.id) (λ x. record x { removed_at = some occurred_at }) marks)
change_mark ids session_id user_id source occurred_at _ _ marks = ok marks

-- The action, overridden where the session is no longer active.
abbrev pub action_for : SessionStatus → Window → ReactionEvent → Bool → AttendanceAction
action_for status window event marked =
    if is_active status then decide window event marked else AttendanceAction.ignore_outside_window

abbrev pub react :
    RowIds mark_key
    → Option ℤ
    → ReactionEvent
    → AttendanceSession
    → User
    → Option AttendanceMark
    → Tables
    → Outcome (AttendanceUpdate × Tables)
react ids source event session user found tables = do
  window ←
      new_window session.lesson_id session.message_id (aware session.opens_at)
        (aware session.closes_at) session.reaction
  let action = action_for session.status window event (is_marked found)
  marks ← change_mark ids session.id user.id source event.occurred_at action found tables.marks
  ok (
    record {
      action = action;
      session_id = some session.id;
      present_count = some (present_count session.id marks);
    },
    record tables { marks = marks },
  )

abbrev pub react_in :
    RowIds user_key
    → RowIds mark_key
    → ℕ
    → ReactionEvent
    → Option String
    → Option String
    → Option ℤ
    → Option AttendanceSession
    → Tables
    → Outcome (AttendanceUpdate × Tables)
react_in user_ids mark_ids clock event display_name username source none tables = ok (
  record {
    action = AttendanceAction.ignore_outside_window;
    session_id = none;
    present_count = none;
  },
  tables,
)
react_in user_ids mark_ids clock event display_name username source (some session) tables =
    let known =
      get_or_create_user user_ids clock event.user_id display_name username event.occurred_at
        tables.users in
    react mark_ids source event session known.0
      (first_where (of_session_user session.id known.0.id) tables.marks)
      (record tables { users = known.1 })

unfoldable pub apply_reaction :
    RowIds user_key
    → RowIds mark_key
    → ℕ
    → ℤ
    → ℤ
    → ReactionEvent
    → Option String
    → Option String
    → Option ℤ
    → Tables
    → Outcome (AttendanceUpdate × Tables)
apply_reaction user_ids mark_ids clock chat_id message_id event display_name username source
      tables =
    react_in user_ids mark_ids clock event display_name username source
      (first_where (of_message chat_id message_id) tables.sessions) tables

abbrev pub is_due : ℕ → AttendanceSession → Bool
is_due now s = is_active s.status && leb s.closes_at now

abbrev pub close : AttendanceSession → AttendanceSession
close s = record s { status = closed }

unfoldable pub close_due : DateTime → Tables → Outcome (ℕ × Tables)
close_due now tables = do
  instant ← aware_instant now
  ok (
    length (returning (is_due instant) close tables.sessions),
    record tables { sessions = update_where (is_due instant) close tables.sessions },
  )
