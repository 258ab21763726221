-- ===== src/Attendance/Tests.antt =====
-- Attendance on concrete tables: runs, and the theorems at concrete inputs.
use mathlib.Core.List.{Memᴰ}
use mathlib.Core.List.Permᴰ
use gasu_schedule_bot.Base.{
  ℕ, ◌≡◌, refl, Bool, true, false, none, some, List, [], ◌∷◌, arith, ok, raise, aware,
}
use gasu_schedule_bot.Base.Int.{pos, negsuc}
use gasu_schedule_bot.Sql.{update_where, select_where, returning}
use gasu_schedule_bot.Attendance.{
  AttendanceAction, ReactionEvent, decide, new_window, integrity_error,
}
use gasu_schedule_bot.Attendance.Service.{
  AttendanceSession, AttendanceMark, User, Tables, SessionStatus, user_key, mark_key, first_where,
  apply_reaction, close_due, get_or_create_user, present_count,
}
use gasu_schedule_bot.Attendance.Service.Closed.{IsValidSession, reaction_after_close}
use gasu_schedule_bot.Attendance.Service.Reactions.{apply_reaction_twice}
use gasu_schedule_bot.Attendance.Service.Stale.{stale_removal_raises}
use gasu_schedule_bot.Attendance.Roster.{
  Membership, AttendanceSummary, TextTools, summary, roster, labels, user_label,
}
use gasu_schedule_bot.Attendance.Roster.Members.{Attends}
use gasu_schedule_bot.Attendance.Roster.Split.{Marked, Lists, summary-Lists}
use gasu_schedule_bot.Sql.Numbering.{max_plus_one}

abbrev lesson : AttendanceSession
lesson = record {
  id = 1;
  lesson_id = 10;
  chat_id = negsuc 99;
  message_id = pos 500;
  reaction = "❤";
  opens_at = 100;
  closes_at = 200;
  status = SessionStatus.opened;
  created_at = 100;
}

abbrev student : User
student = record {
  id = 1;
  telegram_user_id = pos 7;
  username = none;
  display_name = some "Ира";
  language_code = none;
  is_bot = false;
  first_seen_at = 150;
  last_seen_at = 150;
}

abbrev mark_at : ℕ → AttendanceMark
mark_at t = record {
  id = 1;
  session_id = 1;
  user_id = 1;
  source_update_id = none;
  marked_at = t;
  removed_at = none;
}

abbrev heart : ℕ → Bool → ReactionEvent
heart t present = record { user_id = pos 7; occurred_at = t; reaction = "❤"; is_present = present }

abbrev opened_tables : Tables
opened_tables = record { sessions = lesson ∷ []; marks = []; users = [] }

abbrev marked_tables : Tables
marked_tables = record { sessions = lesson ∷ []; marks = mark_at 150 ∷ []; users = student ∷ [] }

marked_once :
    apply_reaction
      (max_plus_one user_key)
      (max_plus_one mark_key)
      150
      (negsuc 99)
      (pos 500)
      (heart 150 true)
      (some "Ира")
      none
      none
      opened_tables
    ≡ ok (
      record { action = AttendanceAction.mark; session_id = some 1; present_count = some 1 },
      marked_tables,
    )
unfolding apply_reaction get_or_create_user first_where new_window decide present_count select_where
    update_where
marked_once = refl

apply_reaction_twice_example :
    apply_reaction
      (max_plus_one user_key)
      (max_plus_one mark_key)
      160
      (negsuc 99)
      (pos 500)
      (heart 150 true)
      (some "Ира")
      none
      none
      marked_tables
    ≡ ok (
      record {
        action = AttendanceAction.ignore_duplicate;
        session_id = some 1;
        present_count = some 1;
      },
      marked_tables,
    )
apply_reaction_twice_example =
    apply_reaction_twice (max_plus_one user_key) (max_plus_one user_key) (max_plus_one mark_key)
      (max_plus_one mark_key) 150 160 (negsuc 99) (pos 500) (heart 150 true) (some "Ира") none none
      none opened_tables marked_once

lesson-IsValidSession : IsValidSession lesson
lesson-IsValidSession = record { window = omega arith; reaction = refl }

abbrev closed_tables : Tables
closed_tables = record marked_tables {
  sessions = record lesson { status = SessionStatus.closed } ∷ [];
}

closed_one : close_due (aware 250) marked_tables ≡ ok (1, closed_tables)
unfolding close_due update_where returning
closed_one = refl

reaction_after_close_example :
    apply_reaction
      (max_plus_one user_key)
      (max_plus_one mark_key)
      260
      (negsuc 99)
      (pos 500)
      (heart 180 false)
      none
      none
      none
      closed_tables
    ≡ ok (
      record {
        action = AttendanceAction.ignore_outside_window;
        session_id = some 1;
        present_count = some (present_count 1 (mark_at 150 ∷ []));
      },
      record closed_tables {
        marks = mark_at 150 ∷ [];
        users =
            (get_or_create_user (max_plus_one user_key) 260 (pos 7) none none 180 (student ∷ [])).1;
      },
    )
unfolding first_where
reaction_after_close_example =
    reaction_after_close (max_plus_one user_key) (max_plus_one mark_key) 260 250 (negsuc 99)
      (pos 500) (heart 180 false) none none none lesson marked_tables closed_tables 1 refl
      lesson-IsValidSession refl (omega arith) closed_one

stale_removal_raises_example :
    apply_reaction
      (max_plus_one user_key)
      (max_plus_one mark_key)
      160
      (negsuc 99)
      (pos 500)
      (heart 140 false)
      none
      none
      none
      marked_tables
    ≡ raise integrity_error
unfolding first_where get_or_create_user
stale_removal_raises_example =
    stale_removal_raises (max_plus_one user_key) (max_plus_one mark_key) 160 (negsuc 99) (pos 500)
      (heart 140 false) none none none marked_tables lesson (mark_at 150) refl lesson-IsValidSession
      refl refl (omega arith) (omega arith) refl refl refl (omega arith)

abbrev member : Membership
member = record { id = 1; chat_id = negsuc 99; user_id = 1; status = "member" }

abbrev tools : TextTools
tools = record { strip = λ t. t; lstrip_at = λ t. t; digits = λ n. "7" }

one_present :
    summary tools (λ rows. rows) 1 (member ∷ []) marked_tables
    ≡ some (record { session_id = 1; present = "Ира" ∷ []; missing = [] })
unfolding summary first_where roster labels user_label
one_present = refl

-- A student who is a member of the chat and has no mark.
abbrev absent : User
absent = record student { id = 2; telegram_user_id = pos 501; display_name = some "Оля" }

abbrev two_students : Tables
two_students = record marked_tables { users = student ∷ absent ∷ [] }

abbrev both : List Membership
both = member ∷ record member { id = 2; user_id = 2 } ∷ []

one_missing :
    summary tools (λ rows. rows) 1 both two_students
    ≡ some (record { session_id = 1; present = "Ира" ∷ []; missing = "Оля" ∷ [] })
unfolding summary first_where roster labels user_label
one_missing = refl

summary-Lists_example :
    (s : AttendanceSummary) × (summary tools (λ rows. rows) 1 both two_students ≡ some s)
    × (s.session_id ≡ 1)
    × Lists tools
        (λ u. Attends (negsuc 99) (student ∷ absent ∷ []) both u × Marked 1 two_students.marks u)
        s.present
    × Lists tools
        (λ u. Attends (negsuc 99) (student ∷ absent ∷ []) both u × ¬ Marked 1 two_students.marks u)
        s.missing
summary-Lists_example =
    summary-Lists tools (λ rows. rows) both two_students lesson (λ rows. Permᴰ.refl rows)
      ((λ e. absurd (omega (arith, e)), tt), (tt, tt)) (tt, tt) (Memᴰ.head refl)
