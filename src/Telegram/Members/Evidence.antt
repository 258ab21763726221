-- ===== src/Telegram/Members/Evidence.antt =====
-- Observations that arrive late, again, or in another order.
use mathlib.Core.List.{Memᴰ}
use gasu_schedule_bot.Base.{
  ℕ, ◌<◌, ◌≤◌, ◌≡◌, refl, ap, String, Bool, true, false, some, List, [], ◌∷◌, map, arith, ◌==◌,
  ==_iff, str_eq, eq_iff, All, Bool-cases, inl, inr, DateTime,
}
use gasu_schedule_bot.Base.Int.{ℤ}
use gasu_schedule_bot.Sql.{update_where, RowIds}
use gasu_schedule_bot.Sql.Unique.{Distinct, same_row}
use gasu_schedule_bot.Attendance.Service.{user_key, first_where}
use gasu_schedule_bot.Telegram.Members.{
  Membership, member_key, Directory, TelegramUser, Disposition, instant_of, is_active,
  apply_transition, upsert_user, of_chat_user, transition, evidence, result, is_target_group,
  observe_message_sender,
}

-- An explicit update that is at least as new as the stored membership can be delivered again: the
-- second time it is reported as unchanged, and the membership stays as it is.
pub transition_twice :
    (status : String) (observed_at : ℕ) (m : Membership)
    → m.checked_at ≤ observed_at
    → transition status observed_at (transition status observed_at m).1
      ≡ (Disposition.unchanged, (transition status observed_at m).1)
unfolding transition apply_transition
transition_twice status observed_at m fresh =
    let same : str_eq status status ≡ true = (eq_iff status status).1 refl in
    ground (arith, fresh, same)

-- Of two explicit updates that are both newer than the stored membership, the later one decides the
-- status and the time of the check, in whichever order the two arrive.
pub later_update_wins :
    (status status' : String) (t t' : ℕ) (m : Membership)
    → m.checked_at < t
    → t < t'
    → ((transition status' t' (transition status t m).1).1.status ≡ status')
      × ((transition status' t' (transition status t m).1).1.checked_at ≡ t')
      × ((transition status t (transition status' t' m).1).1.status ≡ status')
      × ((transition status t (transition status' t' m).1).1.checked_at ≡ t')
unfolding transition apply_transition
later_update_wins status status' t t' m fresh later = ground (arith, fresh, later)

late_evidence :
    (observed_at : ℕ) (m : Membership)
    → is_active m.status ≡ false
    → observed_at ≤ m.checked_at
    → evidence observed_at m ≡ (Disposition.stale, m)
unfolding evidence
late_evidence observed_at m inactive late = ground (arith, inactive, late)

first-mem :
    {R : Type 0} (test : R → Bool) (rows : List R) (r : R)
    → first_where test rows ≡ some r
    → Memᴰ r rows
unfolding first_where
first-mem test [] r h = cc
first-mem test (x ∷ rows) r h = elim (Bool-cases (test x)) [
  | inl e ↦ let is_x : r ≡ x = cc (rw e at h) in Memᴰ.head is_x
  | inr e ↦ Memᴰ.tail (first-mem test rows r (rw e at h))
]

update_kept :
    (f : Membership → Membership) (m : Membership)
    → f m ≡ m
    → (rows : List Membership) → All (λ x. x.id ≡ m.id → x ≡ m) rows
    → update_where (λ x. x.id == m.id) f rows ≡ rows
unfolding update_where
update_kept f m kept [] h = refl
update_kept f m kept (x ∷ rows) h = elim (Bool-cases (x.id == m.id)) [
  | inl e ↦
      let is_m = h.0 ((==_iff x.id m.id).0 e) in
      let kept_x : f x ≡ x = rw is_m kept in
      rw (e, kept_x) (ap (◌∷◌ x) (update_kept f m kept rows h.1))
  | inr e ↦ rw e (ap (◌∷◌ x) (update_kept f m kept rows h.1))
]

-- A message that was sent no later than the last check cannot bring back a member who is recorded
-- as no longer active: in the target group, with distinct membership ids, the observation is
-- reported as stale and no membership changes.
pub message_cannot_resurrect :
    (target_chat_id : ℤ) (user_ids : RowIds user_key) (member_ids : RowIds member_key) (chat_id : ℤ)
    (chat_type : String) (date : DateTime) (telegram : TelegramUser) (directory : Directory)
    (m : Membership)
    → is_target_group target_chat_id chat_id chat_type ≡ true
    → Distinct (map member_key directory.members)
    → first_where
        (of_chat_user target_chat_id
          (upsert_user user_ids telegram (instant_of date) directory.users).0.id)
        directory.members
      ≡ some m
    → is_active m.status ≡ false
    → instant_of date ≤ m.checked_at
    → observe_message_sender target_chat_id user_ids member_ids chat_id chat_type date
        (some telegram)
        directory
      ≡ (
        result Disposition.stale
            (upsert_user user_ids telegram (instant_of date) directory.users).0
            m,
        record directory {
          users = (upsert_user user_ids telegram (instant_of date) directory.users).1;
        },
      )
unfolding observe_message_sender
message_cannot_resurrect target_chat_id user_ids member_ids chat_id chat_type date telegram
      directory m here unique found inactive late =
    let stale = late_evidence (instant_of date) m inactive late in
    let same =
      same_row member_key m directory.members (first-mem _ directory.members m found) unique in
    let kept =
      update_kept (λ x. (evidence (instant_of date) x).1) m
        (ap (λ (r : Disposition × Membership). r.1) stale) directory.members same in
    rw (here, found, stale, kept) refl
