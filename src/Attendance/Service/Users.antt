-- ===== src/Attendance/Service/Users.antt =====
-- A user who is seen twice at the same time is one row, and the second time changes nothing.
use gasu_schedule_bot.Base.{
  ℕ, ◌≡◌, ◌≢◌, refl, max, String, false, Option, none, some, List, ◌==◌, arith, inl, inr, All-mono,
  ap₂, Option-cases,
}
use gasu_schedule_bot.Base.Int.{ℤ, int_eq_refl}
use gasu_schedule_bot.Sql.{RowIds}
use gasu_schedule_bot.Attendance.Service.{
  User, user_key, first_where, get_or_create_user, seen, or_else, of_telegram_id,
}
use gasu_schedule_bot.Attendance.Service.Rows.{
  first-append, first-update, update_twice, update-append_kept,
}

or_else_same : (t : Option String) → or_else t t ≡ t
or_else_same none = refl
or_else_same (some t) = ground arith

or_else_twice : (t o : Option String) → or_else t (or_else t o) ≡ or_else t o
or_else_twice none o = refl
or_else_twice (some t) o = ground arith

module _ (ids ids' : RowIds user_key) (clock clock' : ℕ) (telegram_id : ℤ)
    (display_name username : Option String) (at : ℕ) where
  seen_again :
      (u : User)
      → seen display_name username at (seen display_name username at u)
        ≡ seen display_name username at u
  seen_again u =
      rw (or_else_twice display_name u.display_name, or_else_twice username u.username)
        (let latest : max (max u.last_seen_at at) at ≡ max u.last_seen_at at = omega arith in
          rw latest refl)

  abbrev new_user : ℕ → User
  new_user id = record {
    id = id;
    telegram_user_id = telegram_id;
    username = username;
    display_name = display_name;
    language_code = none;
    is_bot = false;
    first_seen_at = clock;
    last_seen_at = at;
  }

  new_kept : (id : ℕ) → seen display_name username at (new_user id) ≡ new_user id
  new_kept id =
      rw (or_else_same display_name, or_else_same username)
        (let latest : max at at ≡ at = omega arith in rw latest refl)

  -- The second time the user is found, and nothing changes.
  pub get_or_create_again :
      (users : List User)
      → get_or_create_user ids' clock' telegram_id display_name username at
          (get_or_create_user ids clock telegram_id display_name username at users).1
        ≡ get_or_create_user ids clock telegram_id display_name username at users
  unfolding get_or_create_user
  get_or_create_again users = elim (Option-cases (first_where (of_telegram_id telegram_id) users)) [
    | inl missing ↦
        let new = new_user (ids.next users) in
        let there =
          first-append (of_telegram_id telegram_id) users new missing (int_eq_refl telegram_id) in
        let kept =
          update-append_kept (λ u. u.id == ids.next users) (seen display_name username at) users new
            (All-mono (λ u. u.id ≢ ids.next users) (λ u. (u.id == ids.next users) ≡ false)
              (λ u h. ground (arith, h)) users (ids.next_is_new users))
            (new_kept (ids.next users)) in
        rw (missing, there)
          (ap₂ (λ (a : User) (b : List User). (a, b)) (new_kept (ids.next users)) kept)
    | inr (u, found) ↦
        let there =
          first-update (of_telegram_id telegram_id) (λ x. x.id == u.id)
            (seen display_name username at) (λ x. refl) users u (ground arith) found in
        let again =
          update_twice (λ x. x.id == u.id) (seen display_name username at) (λ x. refl) seen_again
            users in
        rw (found, there) (ap₂ (λ (a : User) (b : List User). (a, b)) (seen_again u) again)
  ]
