-- ===== src/Telegram/Members/Tests.antt =====
-- Observations of one member.
use gasu_schedule_bot.Base.{◌≡◌, refl, false, none, some, [], ◌∷◌, arith, aware}
use gasu_schedule_bot.Base.Int.{pos, negsuc}
use gasu_schedule_bot.Sql.Numbering.{max_plus_one}
use gasu_schedule_bot.Attendance.Service.{User, user_key, first_where}
use gasu_schedule_bot.Telegram.Members.{
  Membership, member_key, Directory, TelegramUser, Disposition, member_status, is_active,
  apply_transition, transition, seen_user, upsert_user, result, is_target_group,
  apply_chat_member_update, observe_message_sender,
}
use gasu_schedule_bot.Telegram.Members.Evidence.{later_update_wins, message_cannot_resurrect}

abbrev ira : TelegramUser
ira = record {
  id = pos 7;
  username = none;
  full_name = "Ира";
  language_code = none;
  is_bot = false;
}

abbrev stored_ira : User
stored_ira = record {
  id = 1;
  telegram_user_id = pos 7;
  username = none;
  display_name = some "Ира";
  language_code = none;
  is_bot = false;
  first_seen_at = 100;
  last_seen_at = 100;
}

abbrev departed : Membership
departed = record {
  id = 1;
  chat_id = negsuc 99;
  user_id = 1;
  status = "left";
  is_headman = false;
  joined_at = none;
  left_at = some 100;
  checked_at = 100;
}

abbrev after_leaving : Directory
after_leaving = record { users = stored_ira ∷ []; members = departed ∷ [] }

leaving :
    apply_chat_member_update
      (negsuc 99)
      (max_plus_one user_key)
      (max_plus_one member_key)
      (negsuc 99)
      "supergroup"
      (aware 100)
      ira
      "restricted"
      (some false)
      (record { users = []; members = [] })
    ≡ (
      record {
        disposition = Disposition.created;
        telegram_user_id = some (pos 7);
        status = some "left";
        membership_id = some 1;
      },
      after_leaving,
    )
unfolding apply_chat_member_update is_target_group member_status upsert_user first_where
    apply_transition is_active
leaving = refl

later_update_wins_example :
    ((transition "kicked" 130 (transition "member" 120 departed).1).1.status ≡ "kicked")
    × ((transition "kicked" 130 (transition "member" 120 departed).1).1.checked_at ≡ 130)
    × ((transition "member" 120 (transition "kicked" 130 departed).1).1.status ≡ "kicked")
    × ((transition "member" 120 (transition "kicked" 130 departed).1).1.checked_at ≡ 130)
later_update_wins_example =
    later_update_wins "member" "kicked" 120 130 departed (omega arith) (omega arith)

message_cannot_resurrect_example :
    observe_message_sender
      (negsuc 99)
      (max_plus_one user_key)
      (max_plus_one member_key)
      (negsuc 99)
      "supergroup"
      (aware 90)
      (some ira)
      after_leaving
    ≡ (
      result Disposition.stale
          (upsert_user (max_plus_one user_key) ira 90 (stored_ira ∷ [])).0
          departed,
      record after_leaving {
        users = (upsert_user (max_plus_one user_key) ira 90 (stored_ira ∷ [])).1;
      },
    )
unfolding is_target_group first_where upsert_user seen_user is_active
message_cannot_resurrect_example =
    message_cannot_resurrect (negsuc 99) (max_plus_one user_key) (max_plus_one member_key)
      (negsuc 99) "supergroup" (aware 90) ira after_leaving departed refl (tt, tt) refl refl
      (omega arith)
