-- ===== src/Attendance/Roster/Members.antt =====
-- Who is on the roster of a chat.
use mathlib.Core.List.{Memᴰ}
use gasu_schedule_bot.Base.{
  ◌≡◌, ◌⊎◌, refl, String, Bool, true, false, Option, none, some, List, [], ◌∷◌, map, arith,
  Bool-cases, inl, inr, ◌==◌, if◌then◌else◌, str_eq, eq_iff, exists,
}
use gasu_schedule_bot.Base.Int.{ℤ, int_eq_refl}
use gasu_schedule_bot.Sql.Unique.{Distinct, same_row}
use gasu_schedule_bot.Attendance.Service.{User, user_key, first_where}
use gasu_schedule_bot.Attendance.Roster.{
  Membership, active_roster_statuses, is_active_member, add_user, roster,
}
use gasu_schedule_bot.Attendance.Roster.Rows.{int_eq_sound, found_row, row_by_key}

-- The statuses of somebody who is in the chat.
pub data IsActive : String → Type 0 where
  creator : IsActive "creator"
  administrator : IsActive "administrator"
  ordinary : IsActive "member"

-- A user who is no bot and is joined by a row of the memberships to the chat.
pub record Attends (chat_id : ℤ) (users : List User) (members : List Membership) (user : User)
    : Type 0 where
  pub known : Memᴰ user users
  pub human : user.is_bot ≡ false
  pub member : Membership
  pub row : Memᴰ member members
  pub of_user : member.user_id ≡ user.id
  pub in_chat : member.chat_id ≡ chat_id
  pub active : IsActive member.status

status-IsActive :
    (status : String)
    → exists (λ s. str_eq status s) active_roster_statuses ≡ true
    → IsActive status
status-IsActive status h = elim (Bool-cases (str_eq status "creator")) [
  | inl e ↦ rw ((eq_iff status "creator").0 e) creator
  | inr e ↦ elim (Bool-cases (str_eq status "administrator")) [
    | inl d ↦ rw ((eq_iff status "administrator").0 d) administrator
    | inr d ↦
        let c : str_eq status "member" ≡ true = ground (arith, h, e, d) in
        rw ((eq_iff status "member").0 c) ordinary
  ]
]

IsActive-status :
    (status : String)
    → IsActive status
    → exists (λ s. str_eq status s) active_roster_statuses ≡ true
IsActive-status status creator = refl
IsActive-status status administrator = refl
IsActive-status status ordinary = refl

of_add_user :
    (user u : User) (rest : List User) (bot : Bool)
    → Memᴰ user (if bot then rest else u ∷ rest)
    → Memᴰ user rest ⊎ ((bot ≡ false) × (user ≡ u))
of_add_user user u rest true m = inl m
of_add_user user u rest false (Memᴰ.head here) = inr (refl, here)
of_add_user user u rest false (Memᴰ.tail there) = inl there

module _ (chat_id : ℤ) (users : List User) where
  abbrev user_of : Membership → Option User
  user_of member = first_where (λ u. u.id == member.user_id) users

  Attends-later :
      {member : Membership} {members : List Membership} {user : User}
      → Attends chat_id users members user
      → Attends chat_id users (member ∷ members) user
  Attends-later a = record {
    known = a.known;
    human = a.human;
    member = a.member;
    row = Memᴰ.tail a.row;
    of_user = a.of_user;
    in_chat = a.in_chat;
    active = a.active;
  }

  joined-Attends :
      (member : Membership) (members : List Membership) (found : Option User) (rest : List User)
      (user : User)
      → is_active_member chat_id member ≡ true
      → user_of member ≡ found
      → (Memᴰ user rest → Attends chat_id users members user)
      → Memᴰ user (add_user found rest)
      → Attends chat_id users (member ∷ members) user
  joined-Attends member members none rest user active found later m = Attends-later (later m)
  joined-Attends member members (some u) rest user active found later m =
      elim (of_add_user user u rest u.is_bot m) [
        | inl there ↦ Attends-later (later there)
        | inr (human, same) ↦
            let (known, by_id) = found_row (λ x. x.id == member.user_id) users u found in
            rw same (record {
              known = known;
              human = human;
              member = member;
              row = Memᴰ.head refl;
              of_user = ground (arith, by_id);
              in_chat = int_eq_sound member.chat_id chat_id (ground (arith, active));
              active = status-IsActive member.status (ground (arith, active));
            })
      ]

  pub roster-Attends :
      (members : List Membership) (user : User)
      → Memᴰ user (roster chat_id users members)
      → Attends chat_id users members user
  unfolding roster
  roster-Attends [] user m = elim m [ ]
  roster-Attends (member ∷ members) user m = elim (Bool-cases (is_active_member chat_id member)) [
    | inl e ↦
        joined-Attends member members (user_of member) (roster chat_id users members) user e refl
          (roster-Attends members user) (rw e at m)
    | inr e ↦ Attends-later (roster-Attends members user (rw e at m))
  ]

  mem-add_user :
      (found : Option User) (rest : List User) (user : User)
      → Memᴰ user rest
      → Memᴰ user (add_user found rest)
  mem-add_user none rest user m = m
  mem-add_user (some u) rest user m = elim (Bool-cases u.is_bot) [
    | inl e ↦ rw e m
    | inr e ↦ rw e (Memᴰ.tail m)
  ]

  row-roster :
      (members : List Membership) (member : Membership) (user : User)
      → Memᴰ member members
      → is_active_member chat_id member ≡ true
      → user_of member ≡ some user
      → user.is_bot ≡ false
      → Memᴰ user (roster chat_id users members)
  unfolding roster
  row-roster [] member user m active found human = elim m [ ]
  row-roster (x ∷ members) member user (Memᴰ.head here) active found human =
      rw (← here, active, found, human) (Memᴰ.head refl)
  row-roster (x ∷ members) member user (Memᴰ.tail there) active found human =
      let rest = row-roster members member user there active found human in
      elim (Bool-cases (is_active_member chat_id x)) [
        | inl e ↦ rw e (mem-add_user (user_of x) _ user rest)
        | inr e ↦ rw e rest
      ]

  pub Attends-roster :
      (members : List Membership) (user : User)
      → Distinct (map user_key users)
      → Attends chat_id users members user
      → Memᴰ user (roster chat_id users members)
  Attends-roster members user d a =
      row-roster members a.member user a.row
        (rw (a.in_chat, int_eq_refl chat_id, IsActive-status a.member.status a.active) refl)
        (rw a.of_user
          (row_by_key user_key users user a.known (same_row user_key user users a.known d)))
        a.human
