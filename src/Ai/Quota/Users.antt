-- ===== src/Ai/Quota/Users.antt =====
-- The limit of one user.
use gasu_schedule_bot.Base.{
  ℕ, ◌+◌, ◌≡◌, refl, sym, ap, ◌∙◌, String, false, some, List, arith, Result, ok, >>=-eq-ok,
  raise_if-eq-ok,
}
use gasu_schedule_bot.Base.Int.{ℤ, pos}
use gasu_schedule_bot.Ai.Quota.{
  QuotaError, user_requests, SystemSetting, DurableDailyQuota, QuotaReservation, Formats, user_key,
  day_key, month_key, positive_id, find_setting, store_usage, count_user, reaches, exceeds, reserve,
}
use gasu_schedule_bot.Ai.Quota.Rows.{usage-store, find-store_other}
use gasu_schedule_bot.Ai.Quota.Keys.{user_is_not_day, user_is_not_month}
use gasu_schedule_bot.Ai.Quota.Limits.{usage_at, one_more, reserve_ran, reaches_next}

module _ {D : Type 0} (f : Formats D) (clock : String → ℕ) (day : D) (limit : ℤ) (id : ℕ) where
  counted_user :
      (settings : List SystemSetting) {counted : List SystemSetting}
      → count_user f clock day (some limit) (some (pos id)) settings ≡ ok counted
      → (reaches (some limit) (usage_at (user_key f day id) settings).requests ≡ false)
        × (usage_at (user_key f day id) counted
            ≡ one_more 0 (usage_at (user_key f day id) settings))
  unfolding count_user
  counted_user settings h =
      let (i, is_id, h₁) = >>=-eq-ok (positive_id f (some (pos id))) _ h in
      let key = user_key f day i in
      let setting = find_setting key settings in
      let (below, h₂) =
        raise_if-eq-ok (reaches (some limit) (usage_at key settings).requests) user_requests _ h₁ in
      let same : i ≡ id = id_of i is_id in
      let stored = usage-store clock key (usage_at key settings) 0 settings setting refl in
      let moved = ap (usage_at key) (ok_inj (sym h₂)) ∙ stored in
      (rw (← same) below, rw (← same) moved)
    where
      id_of : (i : ℕ) → positive_id f (some (pos id)) ≡ ok i → i ≡ id
      id_of i e = ground (arith, e)

      ok_inj :
          {s s' : List SystemSetting}
          → ◌≡◌ {A = Result QuotaError (List SystemSetting)} (ok s) (ok s')
          → s ≡ s'
      ok_inj h = ground (arith, h)

  -- With a limit per user, a reservation that is granted to a user adds one request to the user's
  -- count of the day and leaves that count within the limit.
  pub reserve_within_user_limit :
      (quota : DurableDailyQuota) (settings : List SystemSetting) {r : QuotaReservation D}
      {settings' : List SystemSetting}
      → quota.per_user_request_limit ≡ some limit
      → reserve f quota clock day (some (pos id)) settings ≡ ok (r, settings')
      → ((usage_at (user_key f day id) settings').requests
          ≡ (usage_at (user_key f day id) settings).requests + 1)
        × (exceeds (some limit) (usage_at (user_key f day id) settings').requests ≡ false)
  reserve_within_user_limit quota settings {r} {settings'} is_limit h =
      let (counted, _, ran, _, table) = reserve_ran f quota clock day (some (pos id)) settings h in
      let key = user_key f day id in
      let (below, one) = counted_user settings (rw is_limit at ran) in
      let of_month =
        find-store_other clock (month_key f day) (usage_at (month_key f day) settings)
          quota.tokens_per_request key
          (store_usage clock (find_setting (day_key f day) settings) (day_key f day)
            (usage_at (day_key f day) settings) quota.tokens_per_request counted)
          (find_setting (month_key f day) settings) (λ e. user_is_not_month f day day id (sym e)) in
      let of_day =
        find-store_other clock (day_key f day) (usage_at (day_key f day) settings)
          quota.tokens_per_request key counted (find_setting (day_key f day) settings)
          (λ e. user_is_not_day f day day id (sym e)) in
      let after : usage_at key settings' ≡ one_more 0 (usage_at key settings) =
        rw table (rw of_month (rw of_day one)) in
      (rw after refl, rw after (reaches_next (some limit) _ below))
