-- ===== src/Attendance/Service/Stale.antt =====
-- A removal that is delivered after a later mark.
use gasu_schedule_bot.Base.{
  ltb, leb, eq_iff, str_eq, true, false, raise, ◌<◌, ◌≤◌, ℕ, ◌<◌, ◌≤◌, ◌≡◌, refl, String, true,
  false, Option, none, some, leb, ltb, str_eq, eq_iff, arith, raise,
}
use gasu_schedule_bot.Base.Int.{ℤ}
use gasu_schedule_bot.Sql.{RowIds}
use gasu_schedule_bot.Attendance.{integrity_error, decide, ReactionEvent, decide, integrity_error}
use gasu_schedule_bot.Attendance.Service.Closed.{IsValidSession, window_of}
use gasu_schedule_bot.Attendance.Service.{
  AttendanceSession, AttendanceMark, Tables, user_key, mark_key, first_where, of_message, is_active,
  apply_reaction, get_or_create_user, of_session_user,
}

-- Let the session of the message be active, and let the event be a removal of its reaction within
-- its window, by a user whose mark stands. If the removal is said to have occurred before the mark
-- was set, as when it is delivered after a later mark, it violates a constraint of the marks table:
-- the call raises.
pub stale_removal_raises :
    (user_ids : RowIds user_key) (mark_ids : RowIds mark_key) (clock : ℕ) (chat_id message_id : ℤ)
    (event : ReactionEvent) (display_name username : Option String) (source : Option ℤ)
    (tables : Tables) (session : AttendanceSession) (m : AttendanceMark)
    → first_where (of_message chat_id message_id) tables.sessions ≡ some session
    → IsValidSession session
    → is_active session.status ≡ true
    → event.reaction ≡ session.reaction
    → session.opens_at ≤ event.occurred_at
    → event.occurred_at < session.closes_at
    → event.is_present ≡ false
    → first_where
        (of_session_user session.id
          (get_or_create_user user_ids clock event.user_id display_name username event.occurred_at
            tables.users).0.id)
        tables.marks
      ≡ some m
    → m.removed_at ≡ none
    → event.occurred_at < m.marked_at
    → apply_reaction user_ids mark_ids clock chat_id message_id event display_name username source
        tables
      ≡ raise integrity_error
unfolding apply_reaction decide
stale_removal_raises user_ids mark_ids clock chat_id message_id event display_name username source
      tables session m found valid active same after before absent marked kept stale =
    let is_stale : ltb event.occurred_at m.marked_at ≡ true = ground (arith, stale) in
    let early : ltb event.occurred_at session.opens_at ≡ false = ground (arith, after) in
    let late : leb session.closes_at event.occurred_at ≡ false = ground (arith, before) in
    let own : str_eq event.reaction session.reaction ≡ true =
      (eq_iff event.reaction session.reaction).1 same in
    rw (found, window_of session valid, marked, active, own, early, late, absent, kept, is_stale)
      refl
