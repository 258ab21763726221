-- ===== src/Attendance.antt =====
-- Attendance by one Telegram reaction: src/szs_hub/domain/attendance.py.
pub mod Service
pub mod Roster
mod Tests
use gasu_schedule_bot.Base.{
  ℕ, ◌+◌, String, Bool, true, false, ◌||◌, not, leb, ltb, if◌then◌else◌, str_eq, Result, ok, raise,
  ◌>>=◌, ◌>>◌, raise_if, DateTime, aware, naive,
}
use gasu_schedule_bot.Base.Int.{ℤ}

pub data AttendanceAction : Type 0 where
  mark unmark ignore_duplicate ignore_wrong_reaction ignore_outside_window : AttendanceAction

pub data AttendanceError : Type 0 where
  naive_timestamp empty_window empty_reaction bad_window different_session integrity_error :
      AttendanceError

abbrev pub Outcome : Type 0 → Type 0
Outcome A = Result AttendanceError A

abbrev pub aware_instant : DateTime → Outcome ℕ
aware_instant (aware t) = ok t
aware_instant (naive t) = raise naive_timestamp

pub record Window : Type 0 where
  -- `str(lesson_id)` in the service, held as the number itself.
  pub lesson_key : ℕ
  pub message_id : ℤ
  pub opens_at : ℕ
  pub closes_at : ℕ
  pub reaction : String

abbrev pub is_empty_text : String → Bool
is_empty_text String.[] = true
is_empty_text (String.◌∷◌ c s) = false

-- `AttendanceSession.__post_init__`
unfoldable pub new_window : ℕ → ℤ → DateTime → DateTime → String → Outcome Window
new_window lesson_key message_id opens_at closes_at reaction = do
  opens ← aware_instant opens_at
  closes ← aware_instant closes_at
  raise_if (leb closes opens) empty_window
  raise_if (is_empty_text reaction) empty_reaction
  ok (record {
    lesson_key = lesson_key;
    message_id = message_id;
    opens_at = opens;
    closes_at = closes;
    reaction = reaction;
  })

-- An event is constructed only with an aware time, so that time is an instant.
pub record ReactionEvent : Type 0 where
  pub user_id : ℤ
  pub occurred_at : ℕ
  pub reaction : String
  pub is_present : Bool

-- `ReactionEvent.__post_init__`
unfoldable pub new_reaction : ℤ → DateTime → String → Bool → Outcome ReactionEvent
new_reaction user_id occurred_at reaction is_present = do
  instant ← aware_instant occurred_at
  ok (record {
    user_id = user_id;
    occurred_at = instant;
    reaction = reaction;
    is_present = is_present;
  })

abbrev pub same_bool : Bool → Bool → Bool
same_bool a b = if a then b else not b

-- `decide_attendance_action`
unfoldable pub decide : Window → ReactionEvent → Bool → AttendanceAction
decide window event currently_marked =
    if not (str_eq event.reaction window.reaction)
    then AttendanceAction.ignore_wrong_reaction
    else if ltb event.occurred_at window.opens_at || leb window.closes_at event.occurred_at
    then AttendanceAction.ignore_outside_window
    else if same_bool event.is_present currently_marked
    then AttendanceAction.ignore_duplicate
    else if event.is_present
    then AttendanceAction.mark
    else AttendanceAction.unmark
