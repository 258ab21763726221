-- ===== src/Attendance/Service/Reactions.antt =====
-- Reactions that are delivered more than once, or out of order.
use gasu_schedule_bot.Base.{
  ℕ, ◌≡◌, refl, ap, String, Bool, true, false, Option, none, some, List, ltb, ◌==◌, arith, ok,
  >>=-eq-ok, aware, Bool-cases, inl, inr,
}
use gasu_schedule_bot.Base.Int.{ℤ}
use gasu_schedule_bot.Sql.{RowIds}
use gasu_schedule_bot.Attendance.{
  AttendanceAction, ReactionEvent, Window, new_window, decide, Outcome,
}
use gasu_schedule_bot.Attendance.Service.{
  AttendanceSession, AttendanceMark, User, Tables, AttendanceUpdate, user_key, mark_key,
  first_where, of_message, is_active, is_marked, apply_reaction, get_or_create_user,
  of_session_user, present_count, react, react_in, change_mark, action_for,
}
use gasu_schedule_bot.Attendance.Service.Rows.{first-append, first-update}
use gasu_schedule_bot.Attendance.Service.Users.{get_or_create_again}

-- The mark after an action.
abbrev pub marked_after : AttendanceAction → Bool → Bool
marked_after AttendanceAction.mark marked = true
marked_after AttendanceAction.unmark marked = false
marked_after _ marked = marked

-- What a second delivery is answered.
abbrev pub repeated : AttendanceAction → AttendanceAction
repeated AttendanceAction.mark = AttendanceAction.ignore_duplicate
repeated AttendanceAction.unmark = AttendanceAction.ignore_duplicate
repeated action = action

pub decide-repeated :
    (window : Window) (event : ReactionEvent) (marked : Bool)
    → decide window event (marked_after (decide window event marked) marked)
      ≡ repeated (decide window event marked)
unfolding decide
decide-repeated window event marked = ground arith

action_for-repeated :
    (session : AttendanceSession) (window : Window) (event : ReactionEvent) (marked : Bool)
    → action_for session.status window event
        (marked_after (action_for session.status window event marked) marked)
      ≡ repeated (action_for session.status window event marked)
action_for-repeated session window event marked = elim (Bool-cases (is_active session.status)) [
  | inl a ↦ rw a (decide-repeated window event marked)
  | inr a ↦ rw a refl
]

made :
    {marks marks' : List AttendanceMark}
    → ◌≡◌ {A = Outcome (List AttendanceMark)} (ok marks) (ok marks')
    → marks' ≡ marks
made h = ground (arith, h)

module _ (ids ids' : RowIds mark_key) (session_id user_id : ℕ) (source source' : Option ℤ)
    (at : ℕ) where
  abbrev new_mark : ℕ → AttendanceMark
  new_mark id = record {
    id = id;
    session_id = session_id;
    user_id = user_id;
    source_update_id = source;
    marked_at = at;
    removed_at = none;
  }

  -- The mark as it is after the action.
  mark_again :
      (action : AttendanceAction) (found : Option AttendanceMark) (marks : List AttendanceMark)
      {marks' : List AttendanceMark}
      → first_where (of_session_user session_id user_id) marks ≡ found
      → change_mark ids session_id user_id source at action found marks ≡ ok marks'
      → is_marked (first_where (of_session_user session_id user_id) marks')
        ≡ marked_after action (is_marked found)
  mark_again AttendanceAction.mark none marks h e =
      let found =
        first-append (of_session_user session_id user_id) marks (new_mark (ids.next marks)) h
          (ground arith) in
      rw (made e, found) refl
  mark_again AttendanceAction.mark (some m) marks h e =
      let found =
        first-update (of_session_user session_id user_id) (λ x. x.id == m.id)
          (λ x. record x { marked_at = at; removed_at = none; source_update_id = source })
          (λ x. refl) marks m (ground arith) h in
      rw (made e, found) refl
  mark_again AttendanceAction.unmark none marks h e = rw (made e, h) refl
  mark_again AttendanceAction.unmark (some m) marks h e = elim (Bool-cases (ltb at m.marked_at)) [
    | inl early ↦ cc (rw early at e)
    | inr late ↦
        let found =
          first-update (of_session_user session_id user_id) (λ x. x.id == m.id)
            (λ x. record x { removed_at = some at }) (λ x. refl) marks m (ground arith) h in
        rw (made (rw late at e), found) refl
  ]
  mark_again AttendanceAction.ignore_duplicate found marks h e = rw (made e, h) refl
  mark_again AttendanceAction.ignore_wrong_reaction found marks h e = rw (made e, h) refl
  mark_again AttendanceAction.ignore_outside_window found marks h e = rw (made e, h) refl

  change_repeated :
      (action : AttendanceAction) (found : Option AttendanceMark) (marks : List AttendanceMark)
      → change_mark ids' session_id user_id source' at (repeated action) found marks ≡ ok marks
  change_repeated AttendanceAction.mark found marks = refl
  change_repeated AttendanceAction.unmark found marks = refl
  change_repeated AttendanceAction.ignore_duplicate found marks = refl
  change_repeated AttendanceAction.ignore_wrong_reaction found marks = refl
  change_repeated AttendanceAction.ignore_outside_window found marks = refl

module _ (mark_ids mark_ids' : RowIds mark_key) (event : ReactionEvent) (source source' : Option ℤ)
    (session : AttendanceSession) (user : User) where
  react_again :
      (tables : Tables) {update : AttendanceUpdate} {after : Tables}
      → react mark_ids source event session user
          (first_where (of_session_user session.id user.id) tables.marks)
          tables
        ≡ ok (update, after)
      → (after.users ≡ tables.users)
        × (after.sessions ≡ tables.sessions)
        × (react mark_ids' source' event session user
              (first_where (of_session_user session.id user.id) after.marks)
              after
            ≡ ok (record update { action = repeated update.action }, after))
  react_again tables {update} {after} h =
      let (window, valid, h₁) =
        >>=-eq-ok
          (new_window session.lesson_id session.message_id (aware session.opens_at)
            (aware session.closes_at) session.reaction)
          _ h in
      let found = first_where (of_session_user session.id user.id) tables.marks in
      let action = action_for session.status window event (is_marked found) in
      let (marks, changed, h₂) =
        >>=-eq-ok
          (change_mark mark_ids session.id user.id source event.occurred_at action found
            tables.marks)
          _ h₁ in
      let marked =
        mark_again mark_ids mark_ids' session.id user.id source source' event.occurred_at action
          found tables.marks refl changed in
      let is_update : update ≡ record {
        action = action;
        session_id = some session.id;
        present_count = some (present_count session.id marks);
      } =
        ground (arith, h₂) in
      let is_after : after ≡ record tables { marks = marks } = ground (arith, h₂) in
      let same = action_for-repeated session window event (is_marked found) in
      let again =
        change_repeated mark_ids mark_ids' session.id user.id source source' event.occurred_at
          action (first_where (of_session_user session.id user.id) marks) marks in
      rw (is_update, is_after) (refl, refl, rw (valid, marked, same, again) refl)

module _ (user_ids user_ids' : RowIds user_key) (mark_ids mark_ids' : RowIds mark_key)
    (clock clock' : ℕ) (chat_id message_id : ℤ) (event : ReactionEvent)
    (display_name username : Option String) (source source' : Option ℤ) where
  react_in_again :
      (found : Option AttendanceSession) (tables : Tables) {update : AttendanceUpdate}
      {after : Tables}
      → react_in user_ids mark_ids clock event display_name username source found tables
        ≡ ok (update, after)
      → (after.sessions ≡ tables.sessions)
        × (react_in user_ids' mark_ids' clock' event display_name username source' found after
            ≡ ok (record update { action = repeated update.action }, after))
  react_in_again none tables {update} {after} h =
      let is_update : update ≡ record {
        action = AttendanceAction.ignore_outside_window;
        session_id = none;
        present_count = none;
      } =
        ground (arith, h) in
      let is_after : after ≡ tables = ground (arith, h) in rw (is_update, is_after) (refl, refl)
  react_in_again (some session) tables {update} {after} h =
      let known =
        get_or_create_user user_ids clock event.user_id display_name username event.occurred_at
          tables.users in
      let (users, sessions, again) =
        react_again mark_ids mark_ids' event source source' session known.0
          (record tables { users = known.1 }) h in
      let same =
        get_or_create_again user_ids user_ids' clock clock' event.user_id display_name username
          event.occurred_at tables.users in
      let known_again : get_or_create_user user_ids' clock' event.user_id display_name username
            event.occurred_at after.users
          ≡ (known.0, after.users) =
        rw users same in
      (sessions, rw known_again again)

  -- A reaction that has been applied can be delivered again: the second time it is answered as a
  -- duplicate, or ignored as before, reports the same session and present count, and changes
  -- nothing in the tables.
  pub apply_reaction_twice :
      (tables : Tables) {update : AttendanceUpdate} {after : Tables}
      → apply_reaction user_ids mark_ids clock chat_id message_id event display_name username source
          tables
        ≡ ok (update, after)
      → apply_reaction user_ids' mark_ids' clock' chat_id message_id event display_name username
          source' after
        ≡ ok (record update { action = repeated update.action }, after)
  unfolding apply_reaction
  apply_reaction_twice tables h =
      let (sessions, again) =
        react_in_again (first_where (of_message chat_id message_id) tables.sessions) tables h in
      let same_session = ap (first_where (of_message chat_id message_id)) sessions in
      rw same_session again
