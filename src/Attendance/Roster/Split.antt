-- ===== src/Attendance/Roster/Split.antt =====
-- Whom the summary of a session lists as present and whom as missing.
use mathlib.Core.List.{Memᴰ, Permᴰ}
use mathlib.Core.List.Permᴰ
use gasu_schedule_bot.Base.{
  ℕ, ◌≡◌, ◌⊎◌, ◌↔◌, refl, String, Bool, true, false, ◌&&◌, not, Option, none, some, List, [], ◌∷◌,
  map, arith, Bool-cases, inl, inr, ◌==◌, if◌then◌else◌, is_empty,
}
use gasu_schedule_bot.Sql.Unique.{Distinct, same_row}
use gasu_schedule_bot.Attendance.Service.{
  AttendanceSession, AttendanceMark, User, Tables, session_key, user_key,
}
use gasu_schedule_bot.Attendance.Roster.{
  TextTools, Membership, AttendanceSummary, user_label, roster, labels, is_standing, is_present,
  summary,
}
use gasu_schedule_bot.Attendance.Roster.Rows.{row-Perm, row_by_key, exists-row, row-exists}
use gasu_schedule_bot.Attendance.Roster.Members.{Attends, roster-Attends, Attends-roster}

-- A mark of the user in the session that has not been taken back.
pub record Marked (session_id : ℕ) (marks : List AttendanceMark) (user : User) : Type 0 where
  pub mark : AttendanceMark
  pub row : Memᴰ mark marks
  pub of_user : mark.user_id ≡ user.id
  pub in_session : mark.session_id ≡ session_id
  pub standing : mark.removed_at ≡ none

is_empty-none : {A : Type 0} (o : Option A) → is_empty o ≡ true → o ≡ none
is_empty-none none h = refl
is_empty-none (some a) h = cc

module _ (session_id : ℕ) (marks : List AttendanceMark) (user : User) where
  present-Marked : is_present session_id marks user ≡ true → Marked session_id marks user
  present-Marked h =
      let (mark, row, pass) =
        exists-row (λ m. is_standing session_id m && m.user_id == user.id) marks h in
      record {
        mark = mark;
        row = row;
        of_user = ground (arith, pass);
        in_session = ground (arith, pass);
        standing = is_empty-none mark.removed_at (ground (arith, pass));
      }

  Marked-present : Marked session_id marks user → is_present session_id marks user ≡ true
  Marked-present h =
      row-exists (λ m. is_standing session_id m && m.user_id == user.id) marks h.mark h.row
        (rw (h.in_session, h.of_user, h.standing) (ground arith))

module _ (tools : TextTools) (test : User → Bool) (label : String) where
  labels-row :
      (users : List User)
      → Memᴰ label (labels tools test users)
      → (u : User) × Memᴰ u users × (test u ≡ true) × (label ≡ user_label tools u)
  unfolding labels
  labels-row [] m = elim m [ ]
  labels-row (u ∷ users) m = elim (of_labels u (labels tools test users) (test u) refl m) [
    | inl (pass, same) ↦ (u, Memᴰ.head refl, pass, same)
    | inr later ↦
        let (v, row, pass, same) = labels-row users later in (v, Memᴰ.tail row, pass, same)
  ]
    where
      of_labels :
          (u : User) (rest : List String) (b : Bool)
          → test u ≡ b
          → Memᴰ label (if b then user_label tools u ∷ rest else rest)
          → ((test u ≡ true) × (label ≡ user_label tools u)) ⊎ Memᴰ label rest
      of_labels u rest true pass (Memᴰ.head here) = inl (pass, here)
      of_labels u rest true pass (Memᴰ.tail there) = inr there
      of_labels u rest false pass m = inr m

  row-labels :
      (users : List User) (u : User)
      → Memᴰ u users
      → test u ≡ true
      → label ≡ user_label tools u
      → Memᴰ label (labels tools test users)
  unfolding labels
  row-labels [] u m pass same = elim m [ ]
  row-labels (x ∷ users) u (Memᴰ.head here) pass same = rw (← here, pass) (Memᴰ.head same)
  row-labels (x ∷ users) u (Memᴰ.tail there) pass same =
      let rest = row-labels users u there pass same in
      elim (Bool-cases (test x)) [ inl e ↦ rw e (Memᴰ.tail rest) | inr e ↦ rw e rest ]

-- The labels of the users with a property, and no others.
abbrev pub Lists : TextTools → (User → Type 0) → List String → Type 0
Lists tools Q shown =
    (label : String) → Memᴰ label shown ↔ ((user : User) × Q user × (label ≡ user_label tools user))

labels-Lists :
    (tools : TextTools) (test : User → Bool) (users : List User) (Q : User → Type 0)
    → ((u : User) → Memᴰ u users → test u ≡ true → Q u)
    → ((u : User) → Q u → Memᴰ u users × (test u ≡ true))
    → Lists tools Q (labels tools test users)
labels-Lists tools test users Q there back label = (
  λ m.
      let (u, row, pass, same) = labels-row tools test label users m in (u, there u row pass, same),
  λ q.
      let (u, holds, same) = q in
      let (row, pass) = back u holds in row-labels tools test label users u row pass same,
)

module _ (tools : TextTools) (order : List User → List User) (members : List Membership)
    (tables : Tables) (session : AttendanceSession)
    (sorted : (rows : List User) → Permᴰ (order rows) rows)
    (users_distinct : Distinct (map user_key tables.users)) where
  abbrev rows : List User
  rows = roster session.chat_id tables.users members

  abbrev present : User → Bool
  present = is_present session.id tables.marks

  row-Attends : (u : User) → Memᴰ u (order rows) → Attends session.chat_id tables.users members u
  row-Attends u m =
      roster-Attends session.chat_id tables.users members u (row-Perm (sorted rows) u m)

  Attends-row : (u : User) → Attends session.chat_id tables.users members u → Memᴰ u (order rows)
  Attends-row u a =
      row-Perm (Permᴰ.symm (sorted rows)) u
        (Attends-roster session.chat_id tables.users members u users_distinct a)

  present-Lists :
      Lists tools
        (λ u. Attends session.chat_id tables.users members u × Marked session.id tables.marks u)
        (labels tools present (order rows))
  present-Lists =
      labels-Lists tools present (order rows) _
        (λ u m e. (row-Attends u m, present-Marked session.id tables.marks u e))
        (λ u q. (Attends-row u q.0, Marked-present session.id tables.marks u q.1))

  missing-Lists :
      Lists tools
        (λ u. Attends session.chat_id tables.users members u × ¬ Marked session.id tables.marks u)
        (labels tools (λ u. not (present u)) (order rows))
  missing-Lists =
      labels-Lists tools (λ u. not (present u)) (order rows) _
        (λ u m e. (
          row-Attends u m,
          λ k.
              let yes = Marked-present session.id tables.marks u k in
              absurd (ground (arith, e, yes)),
        ))
        (λ u q. (
          Attends-row u q.0,
          elim (Bool-cases (present u)) [
            | inl e ↦ absurd (q.1 (present-Marked session.id tables.marks u e))
            | inr e ↦ rw e refl
          ],
        ))

  -- Where ids are distinct and the database sorts rows without losing or adding any, the summary of a
  -- session of the table lists as present exactly the users who are no bots, are active members of
  -- the session's chat and have a mark in the session that is not taken back, and as missing exactly
  -- the other users who are no bots and active members of the chat.
  pub summary-Lists :
      Distinct (map session_key tables.sessions)
      → Memᴰ session tables.sessions
      → (s : AttendanceSummary) × (summary tools order session.id members tables ≡ some s)
        × (s.session_id ≡ session.id)
        × Lists tools
            (λ u. Attends session.chat_id tables.users members u × Marked session.id tables.marks u)
            s.present
        × Lists tools
            (λ u.
              Attends session.chat_id tables.users members u × ¬ Marked session.id tables.marks u)
            s.missing
  unfolding summary
  summary-Lists distinct row =
      let found =
        row_by_key session_key tables.sessions session row
          (same_row session_key session tables.sessions row distinct) in
      (
        record {
          session_id = session.id;
          present = labels tools present (order rows);
          missing = labels tools (λ u. not (present u)) (order rows);
        },
        rw found refl,
        refl,
        present-Lists,
        missing-Lists,
      )
