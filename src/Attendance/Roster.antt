-- ===== src/Attendance/Roster.antt =====
-- `AttendanceService.summary` of src/szs_hub/attendance/service.py: the members of the session's
-- chat, split by their current mark. Reads change nothing, so only the answer is returned.
pub mod Rows
pub mod Members
pub mod Split
use mathlib.Core.Option
use gasu_schedule_bot.Base.{
  ℕ, ◌+◌, String, Bool, true, false, ◌&&◌, not, Option, none, some, List, [], ◌∷◌, length, ◌==◌,
  if◌then◌else◌, str_eq, exists, is_empty,
}
use gasu_schedule_bot.Base.Int.{ℤ, int_eq}
use gasu_schedule_bot.Sql.{select_where}
use gasu_schedule_bot.Attendance.{is_empty_text}
use gasu_schedule_bot.Attendance.Service.{
  AttendanceSession, AttendanceMark, User, Tables, first_where,
}

-- The columns of a row of `memberships` that the summary reads.
pub record Membership : Type 0 where
  pub id : ℕ
  pub chat_id : ℤ
  pub user_id : ℕ
  pub status : String

pub record AttendanceSummary : Type 0 where
  pub session_id : ℕ
  pub present : List String
  pub missing : List String

-- `AttendanceSummary.roster_size`
abbrev pub roster_size : AttendanceSummary → ℕ
roster_size summary = length summary.present + length summary.missing

abbrev pub active_roster_statuses : List String
active_roster_statuses = "creator" ∷ "administrator" ∷ "member" ∷ []

-- `str.strip`, `str.lstrip("@")` and the digits of an integer.
pub record TextTools : Type 0 where
  pub strip : String → String
  pub lstrip_at : String → String
  pub digits : ℤ → String

abbrev joined : String → String → String
joined String.[] t = t
joined (String.◌∷◌ c s) t = String.◌∷◌ c (joined s t)

-- `text and text.strip()`
abbrev pub stripped : TextTools → Option String → String
stripped tools none = String.[]
stripped tools (some t) = if is_empty_text t then String.[] else tools.strip t

-- `_user_label`
unfoldable pub user_label : TextTools → User → String
user_label tools user =
    if not (is_empty_text (stripped tools user.display_name))
    then stripped tools user.display_name
    else if not (is_empty_text (stripped tools user.username))
    then joined "@" (tools.lstrip_at (stripped tools user.username))
    else joined "Telegram " (tools.digits user.telegram_user_id)

abbrev pub is_active_member : ℤ → Membership → Bool
is_active_member chat_id member =
    int_eq member.chat_id chat_id && exists (λ s. str_eq member.status s) active_roster_statuses

abbrev pub add_user : Option User → List User → List User
add_user none roster = roster
add_user (some user) roster = if user.is_bot then roster else user ∷ roster

-- The join of the members with their users, without the bots.
unfoldable pub roster : ℤ → List User → List Membership → List User
roster chat_id users [] = []
roster chat_id users (member ∷ members) =
    let rest = roster chat_id users members in
    if is_active_member chat_id member
    then add_user (first_where (λ u. u.id == member.user_id) users) rest
    else rest

abbrev pub is_standing : ℕ → AttendanceMark → Bool
is_standing session_id m = m.session_id == session_id && is_empty m.removed_at

-- `int(user_id) in present_ids`
abbrev pub is_present : ℕ → List AttendanceMark → User → Bool
is_present session_id marks user =
    exists (λ m. is_standing session_id m && m.user_id == user.id) marks

-- The loop over the rows of the roster.
unfoldable pub labels : TextTools → (User → Bool) → List User → List String
labels tools test [] = []
labels tools test (user ∷ users) =
    let rest = labels tools test users in if test user then user_label tools user ∷ rest else rest

module _ (tools : TextTools) (order : List User → List User) where
  abbrev pub summary_of :
      List Membership → Tables → Option AttendanceSession → Option AttendanceSummary
  summary_of members tables none = none
  summary_of members tables (some session) =
      let rows = order (roster session.chat_id tables.users members) in
      some (record {
        session_id = session.id;
        present = labels tools (is_present session.id tables.marks) rows;
        missing = labels tools (λ u. not (is_present session.id tables.marks u)) rows;
      })

  -- `order` is ORDER BY display_name, telegram_user_id; `none` is the LookupError.
  unfoldable pub summary : ℕ → List Membership → Tables → Option AttendanceSummary
  summary session_id members tables =
      summary_of members tables (first_where (λ s. s.id == session_id) tables.sessions)
