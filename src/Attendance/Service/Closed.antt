-- ===== src/Attendance/Service/Closed.antt =====
-- A session that has been closed takes no more marks.
use gasu_schedule_bot.Base.{
  ℕ, ◌<◌, ◌≤◌, ◌≡◌, refl, String, Bool, true, false, Option, some, List, [], ◌∷◌, if◌then◌else◌,
  arith, ok, aware, Bool-cases, inl, inr,
}
use gasu_schedule_bot.Base.Int.{ℤ}
use gasu_schedule_bot.Sql.{update_where, RowIds}
use gasu_schedule_bot.Attendance.{AttendanceAction, ReactionEvent, is_empty_text, new_window}
use gasu_schedule_bot.Attendance.Service.{
  AttendanceSession, Tables, user_key, mark_key, first_where, of_message, is_active, is_due, close,
  close_due, apply_reaction, get_or_create_user, present_count,
}

-- What the table's CHECK constraint and `open_session` guarantee of a row.
pub record IsValidSession (s : AttendanceSession) : Type 0 where
  pub window : s.opens_at < s.closes_at
  pub reaction : is_empty_text s.reaction ≡ false

pub window_of :
    (s : AttendanceSession)
    → IsValidSession s
    → new_window s.lesson_id s.message_id (aware s.opens_at) (aware s.closes_at) s.reaction
      ≡ ok (record {
        lesson_key = s.lesson_id;
        message_id = s.message_id;
        opens_at = s.opens_at;
        closes_at = s.closes_at;
        reaction = s.reaction;
      })
unfolding new_window
window_of s v = let positive = v.window in let text = v.reaction in ground (arith, positive, text)

find-close :
    (test : AttendanceSession → Bool) (now : ℕ)
    → ((s : AttendanceSession) → test (close s) ≡ test s)
    → (sessions : List AttendanceSession) (s : AttendanceSession)
    → first_where test sessions ≡ some s
    → first_where test (update_where (is_due now) close sessions)
      ≡ some (if is_due now s then close s else s)
unfolding first_where update_where
find-close test now same [] s h = cc
find-close test now same (x ∷ sessions) s h = elim (Bool-cases (test x)) [
  | inl t ↦
      let is_s : x ≡ s = cc (rw t at h) in
      elim (Bool-cases (is_due now x)) [
        | inl d ↦ rw (d, same x, t, ← is_s, d) refl
        | inr d ↦ rw (d, t, ← is_s, d) refl
      ]
  | inr t ↦
      let later = find-close test now same sessions s (rw t at h) in
      elim (Bool-cases (is_due now x)) [ inl d ↦ rw (d, same x, t) later | inr d ↦ rw (d, t) later ]
]

module _ (user_ids : RowIds user_key) (mark_ids : RowIds mark_key) (clock now : ℕ)
    (chat_id message_id : ℤ) (event : ReactionEvent) (display_name username : Option String)
    (source : Option ℤ) (session : AttendanceSession) (tables after : Tables) (n : ℕ) where
  -- Once `close_due` has run at or after the end of a session that was scheduled or open, every
  -- reaction to its message is answered as outside the window, whenever it is said to have
  -- occurred: it changes no mark and no session, and reports the present count as it was.
  pub reaction_after_close :
      first_where (of_message chat_id message_id) tables.sessions ≡ some session
      → IsValidSession session
      → is_active session.status ≡ true
      → session.closes_at ≤ now
      → close_due (aware now) tables ≡ ok (n, after)
      → apply_reaction user_ids mark_ids clock chat_id message_id event display_name username source
          after
        ≡ ok (
          record {
            action = AttendanceAction.ignore_outside_window;
            session_id = some session.id;
            present_count = some (present_count session.id tables.marks);
          },
          record after {
            marks = tables.marks;
            users =
                (get_or_create_user user_ids clock event.user_id display_name username
                  event.occurred_at tables.users).1;
          },
        )
  unfolding apply_reaction close_due
  reaction_after_close found valid active over ran =
      let due : is_due now session ≡ true = ground (arith, active, over) in
      let table : after
          ≡ record tables { sessions = update_where (is_due now) close tables.sessions } =
        ground (arith, ran) in
      let kept =
        find-close (of_message chat_id message_id) now (λ s. refl) tables.sessions session found in
      rw (table, kept, due, window_of session valid) refl
