-- ===== src/Telegram/Members.antt =====
-- `TelegramMembershipStore` of src/szs_hub/telegram/membership_store.py, on the tables of users and
-- memberships (storage/models.py). A Telegram object is read through the fields that the store
-- uses; its enumerations are the texts that `_enum_value` makes of them.
pub mod Evidence
mod Tests
use mathlib.Core.Option
use gasu_schedule_bot.Base.{
  ℕ, String, Bool, true, false, ◌&&◌, ◌||◌, not, min, max, Option, none, some, List, [], ◌∷◌, ◌++◌,
  ltb, leb, ◌==◌, if◌then◌else◌, str_eq, exists, is_empty, DateTime, aware, naive,
}
use gasu_schedule_bot.Base.Int.{ℤ, int_eq}
use gasu_schedule_bot.Sql.{update_where, RowIds}
use gasu_schedule_bot.Attendance.Service.{User, user_key, first_where, of_telegram_id}

pub record Membership : Type 0 where
  pub id : ℕ
  pub chat_id : ℤ
  pub user_id : ℕ
  pub status : String
  pub is_headman : Bool
  pub joined_at : Option ℕ
  pub left_at : Option ℕ
  pub checked_at : ℕ

abbrev pub member_key : Membership → ℕ
member_key m = m.id

pub record Directory : Type 0 where
  pub users : List User
  pub members : List Membership

pub record TelegramUser : Type 0 where
  pub id : ℤ
  pub username : Option String
  -- The first and last name, joined and stripped.
  pub full_name : String
  pub language_code : Option String
  pub is_bot : Bool

pub data Disposition : Type 0 where
  created updated unchanged stale ignored_chat ignored_sender : Disposition

pub record MembershipWriteResult : Type 0 where
  pub disposition : Disposition
  pub telegram_user_id : Option ℤ
  pub status : Option String
  pub membership_id : Option ℕ

-- `_aware`: a naive time is taken as UTC.
abbrev pub instant_of : DateTime → ℕ
instant_of (aware t) = t
instant_of (naive t) = t

unfoldable pub is_active : String → Bool
is_active status =
    exists (λ s. str_eq status s) ("creator" ∷ "administrator" ∷ "member" ∷ "restricted" ∷ [])

abbrev pub has_left : String → Bool
has_left status = str_eq status "left" || str_eq status "kicked"

abbrev pub restricted_status : Option Bool → String
restricted_status (some true) = "restricted"
restricted_status (some false) = "left"
restricted_status none = "unknown"

-- `_member_status`
unfoldable pub member_status : String → Option Bool → String
member_status raw_status is_member =
    if str_eq raw_status "restricted"
    then restricted_status is_member
    else if exists (λ s. str_eq raw_status s)
        ("creator" ∷ "administrator" ∷ "member" ∷ "left" ∷ "kicked" ∷ [])
    then raw_status
    else "unknown"

-- `_apply_transition`
unfoldable pub apply_transition : String → ℕ → Membership → Membership
apply_transition status observed_at m =
    if is_active status
    then record m {
      status = status;
      checked_at = observed_at;
      joined_at =
          if not (is_active m.status) || is_empty m.joined_at
          then some observed_at
          else m.joined_at;
      left_at = none;
    }
    else record m {
      status = status;
      checked_at = observed_at;
      left_at = if has_left status then some observed_at else m.left_at;
    }

-- `_upsert_user` on the row that it found.
unfoldable pub seen_user : TelegramUser → ℕ → User → User
seen_user telegram seen_at stored =
    if leb stored.last_seen_at seen_at
    then record stored {
      first_seen_at = min stored.first_seen_at seen_at;
      username = telegram.username;
      display_name = some telegram.full_name;
      language_code = telegram.language_code;
      is_bot = telegram.is_bot;
      last_seen_at = seen_at;
    }
    else record stored { first_seen_at = min stored.first_seen_at seen_at }

abbrev pub upserted : User → TelegramUser → ℕ → Option User → List User → User × List User
upserted new telegram seen_at none users = (new, users ++ new ∷ [])
upserted new telegram seen_at (some stored) users = (
  seen_user telegram seen_at stored,
  update_where (λ u. u.id == stored.id) (seen_user telegram seen_at) users,
)

-- `_upsert_user`
unfoldable pub upsert_user : RowIds user_key → TelegramUser → ℕ → List User → User × List User
upsert_user ids telegram seen_at users =
    upserted
      (record {
        id = ids.next users;
        telegram_user_id = telegram.id;
        username = telegram.username;
        display_name = some telegram.full_name;
        language_code = telegram.language_code;
        is_bot = telegram.is_bot;
        first_seen_at = seen_at;
        last_seen_at = seen_at;
      })
      telegram seen_at (first_where (of_telegram_id telegram.id) users) users

abbrev pub of_chat_user : ℤ → ℕ → Membership → Bool
of_chat_user chat_id user_id m = int_eq m.chat_id chat_id && m.user_id == user_id

-- What an explicit update does to the membership that is stored.
unfoldable pub transition : String → ℕ → Membership → Disposition × Membership
transition status observed_at m =
    if ltb observed_at m.checked_at
    then (Disposition.stale, m)
    else if observed_at == m.checked_at && str_eq m.status status
    then (Disposition.unchanged, m)
    else (Disposition.updated, apply_transition status observed_at m)

-- What the evidence of a message does to it.
unfoldable pub evidence : ℕ → Membership → Disposition × Membership
evidence observed_at m =
    if ltb observed_at m.checked_at
    then (Disposition.stale, m)
    else if observed_at == m.checked_at
    then ((if is_active m.status then Disposition.unchanged else Disposition.stale), m)
    else if is_active m.status
    then (Disposition.updated, record m { checked_at = observed_at })
    else (Disposition.updated, apply_transition "member" observed_at m)

abbrev pub result : Disposition → User → Membership → MembershipWriteResult
result disposition user m = record {
  disposition = disposition;
  telegram_user_id = some user.telegram_user_id;
  status = some m.status;
  membership_id = some m.id;
}

abbrev pub ignored : Disposition → MembershipWriteResult
ignored disposition = record {
  disposition = disposition;
  telegram_user_id = none;
  status = none;
  membership_id = none;
}

-- The membership that is added, or the change of the one that was found.
abbrev pub write :
    (Membership → Disposition × Membership)
    → Membership
    → User
    → Option Membership
    → Directory
    → MembershipWriteResult × Directory
write change new user none directory = (
  result Disposition.created user new,
  record directory { members = directory.members ++ new ∷ [] },
)
write change new user (some m) directory = (
  result (change m).0 user (change m).1,
  record directory {
    members = update_where (λ x. x.id == m.id) (λ x. (change x).1) directory.members;
  },
)

abbrev pub new_membership : ℕ → ℤ → ℕ → String → ℕ → Membership
new_membership id chat_id user_id status checked_at = record {
  id = id;
  chat_id = chat_id;
  user_id = user_id;
  status = status;
  is_headman = false;
  joined_at = none;
  left_at = none;
  checked_at = checked_at;
}

-- `_is_target_group`
unfoldable pub is_target_group : ℤ → ℤ → String → Bool
is_target_group target_chat_id chat_id chat_type =
    int_eq chat_id target_chat_id && (str_eq chat_type "group" || str_eq chat_type "supergroup")

module _ (target_chat_id : ℤ) (user_ids : RowIds user_key) (member_ids : RowIds member_key) where
  unfoldable pub apply_chat_member_update :
      ℤ
      → String
      → DateTime
      → TelegramUser
      → String
      → Option Bool
      → Directory
      → MembershipWriteResult × Directory
  apply_chat_member_update chat_id chat_type date telegram raw_status is_member directory =
      let observed_at = instant_of date in
      let status = member_status raw_status is_member in
      let known = upsert_user user_ids telegram observed_at directory.users in
      let id = member_ids.next directory.members in
      if not (is_target_group target_chat_id chat_id chat_type)
      then (ignored Disposition.ignored_chat, directory)
      else write (transition status observed_at)
          (apply_transition status observed_at
            (new_membership id target_chat_id known.0.id status observed_at))
          known.0 (first_where (of_chat_user target_chat_id known.0.id) directory.members)
          (record directory { users = known.1 })

  abbrev pub observe_sender :
      DateTime → Option TelegramUser → Directory → MembershipWriteResult × Directory
  observe_sender date none directory = (ignored Disposition.ignored_sender, directory)
  observe_sender date (some telegram) directory =
      let observed_at = instant_of date in
      let known = upsert_user user_ids telegram observed_at directory.users in
      let id = member_ids.next directory.members in
      write (evidence observed_at)
        (record (new_membership id target_chat_id known.0.id "member" observed_at) {
          joined_at = some observed_at;
        })
        known.0 (first_where (of_chat_user target_chat_id known.0.id) directory.members)
        (record directory { users = known.1 })

  unfoldable pub observe_message_sender :
      ℤ → String → DateTime → Option TelegramUser → Directory → MembershipWriteResult × Directory
  observe_message_sender chat_id chat_type date sender directory =
      if not (is_target_group target_chat_id chat_id chat_type)
      then (ignored Disposition.ignored_chat, directory)
      else observe_sender date sender directory
