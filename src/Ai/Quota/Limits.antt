-- ===== src/Ai/Quota/Limits.antt =====
-- The limits of the quota: a reservation never passes one, and the requests of a day are counted.
use gasu_schedule_bot.Base.{
  ℕ, ◌+◌, ◌≤◌, ◌≡◌, ◌≢◌, refl, sym, ap, ◌∙◌, String, false, Option, none, some, List, arith, Result,
  ok, >>=-eq-ok, raise_if-eq-ok,
}
use gasu_schedule_bot.Base.Int.{ℤ, pos, negsuc}
use gasu_schedule_bot.Ai.Quota.{
  QuotaError, user_requests, SystemSetting, Usage, DurableDailyQuota, QuotaReservation, Formats,
  day_key, month_key, user_key, positive_id, usage_in, find_setting, store_usage, count_user,
  check_limits, reaches, exceeds, reserve,
}
use gasu_schedule_bot.Ai.Quota.Rows.{usage-store, find-store_other}
use gasu_schedule_bot.Ai.Quota.Keys.{day_is_not_month, user_is_not_day, user_is_not_month}

-- The usage that a table records under a key.
abbrev pub usage_at : String → List SystemSetting → Usage
usage_at key settings = usage_in (find_setting key settings)

abbrev pub one_more : ℕ → Usage → Usage
one_more tokens usage = record { requests = usage.requests + 1; tokens = usage.tokens + tokens }

checked :
    (quota : DurableDailyQuota) (usage month : Usage) {u : Unit {0}}
    → check_limits quota usage month ≡ ok u
    → (usage.requests + 1 ≤ quota.request_limit)
      × (usage.tokens + quota.tokens_per_request ≤ quota.token_limit)
      × (reaches quota.monthly_request_limit month.requests ≡ false)
      × (exceeds quota.monthly_token_limit (month.tokens + quota.tokens_per_request) ≡ false)
unfolding check_limits
checked quota usage month h = ground (arith, h)

pub reaches_next :
    (limit : Option ℤ) (n : ℕ) → reaches limit n ≡ false → exceeds limit (n + 1) ≡ false
reaches_next none n h = refl
reaches_next (some (pos l)) n h = ground (arith, h)
reaches_next (some (negsuc l)) n h = cc

module _ {D : Type 0} (f : Formats D) (quota : DurableDailyQuota) (clock : String → ℕ) (day : D)
    (user_id : Option ℤ) (settings : List SystemSetting) where
  -- The table after a reservation, given the table after the user's row.
  abbrev pub both_stored : List SystemSetting → List SystemSetting
  both_stored counted =
      store_usage clock (find_setting (month_key f day) settings) (month_key f day)
        (usage_at (month_key f day) settings) quota.tokens_per_request
        (store_usage clock (find_setting (day_key f day) settings) (day_key f day)
          (usage_at (day_key f day) settings) quota.tokens_per_request counted)

  pub reserve_ran :
      {r : QuotaReservation D} {settings' : List SystemSetting}
      → reserve f quota clock day user_id settings ≡ ok (r, settings')
      → (counted : List SystemSetting) × (check_limits quota
            (usage_at (day_key f day) settings)
            (usage_at (month_key f day) settings)
          ≡ ok tt)
        × (count_user f clock day quota.per_user_request_limit user_id settings ≡ ok counted)
        × (r ≡ record { day = day; reserved_tokens = quota.tokens_per_request })
        × (settings' ≡ both_stored counted)
  unfolding reserve
  reserve_ran h =
      let (u, valid, h₁) =
        >>=-eq-ok
          (check_limits quota (usage_at (day_key f day) settings)
            (usage_at (month_key f day) settings))
          _ h in
      let (counted, ran, h₂) =
        >>=-eq-ok (count_user f clock day quota.per_user_request_limit user_id settings) _ h₁ in
      (counted, valid, ran, ground (arith, h₂), ground (arith, h₂))

module _ {D : Type 0} (f : Formats D) (clock : String → ℕ) (day : D) where
  -- The row of the user leaves every key that is not a user's key alone.
  pub count_user_other :
      (limit user_id : Option ℤ) (key : String) (settings : List SystemSetting)
      {counted : List SystemSetting}
      → ((id : ℕ) → user_key f day id ≢ key)
      → count_user f clock day limit user_id settings ≡ ok counted
      → find_setting key counted ≡ find_setting key settings
  unfolding count_user
  count_user_other none user_id key settings other h = ground (arith, h)
  count_user_other (some limit) user_id key settings other h =
      let (id, _, h₁) = >>=-eq-ok (positive_id f user_id) _ h in
      let (_, h₂) =
        raise_if-eq-ok (reaches (some limit) (usage_at (user_key f day id) settings).requests)
          user_requests _ h₁ in
      ap (find_setting key) (ok_inj (sym h₂))
      ∙ find-store_other clock (user_key f day id) (usage_at (user_key f day id) settings) 0 key
          settings (find_setting (user_key f day id) settings) (other id)
    where
      ok_inj :
          {s s' : List SystemSetting}
          → ◌≡◌ {A = Result QuotaError (List SystemSetting)} (ok s) (ok s')
          → s ≡ s'
      ok_inj h = ground (arith, h)

module _ {D : Type 0} (f : Formats D) (quota : DurableDailyQuota) (clock : String → ℕ) (day : D)
    (user_id : Option ℤ) (settings counted : List SystemSetting) where
  abbrev day_stored : List SystemSetting
  day_stored =
      store_usage clock (find_setting (day_key f day) settings) (day_key f day)
        (usage_at (day_key f day) settings) quota.tokens_per_request counted

  pub both_stored-day :
      find_setting (day_key f day) counted ≡ find_setting (day_key f day) settings
      → usage_at (day_key f day) (both_stored f quota clock day user_id settings counted)
        ≡ one_more quota.tokens_per_request (usage_at (day_key f day) settings)
  both_stored-day kept =
      ap usage_in (
        find-store_other clock (month_key f day) (usage_at (month_key f day) settings)
          quota.tokens_per_request (day_key f day) day_stored
          (find_setting (month_key f day) settings) (λ e. day_is_not_month f day day (sym e)))
      ∙ usage-store clock (day_key f day) (usage_at (day_key f day) settings)
          quota.tokens_per_request counted (find_setting (day_key f day) settings) kept

  pub both_stored-month :
      find_setting (month_key f day) counted ≡ find_setting (month_key f day) settings
      → usage_at (month_key f day) (both_stored f quota clock day user_id settings counted)
        ≡ one_more quota.tokens_per_request (usage_at (month_key f day) settings)
  both_stored-month kept =
      usage-store clock (month_key f day) (usage_at (month_key f day) settings)
        quota.tokens_per_request day_stored (find_setting (month_key f day) settings)
        (find-store_other clock (day_key f day) (usage_at (day_key f day) settings)
            quota.tokens_per_request (month_key f day) counted
            (find_setting (day_key f day) settings) (day_is_not_month f day day)
          ∙ kept)

module _ {D : Type 0} (f : Formats D) (quota : DurableDailyQuota) (clock : String → ℕ) (day : D)
    (user_id : Option ℤ) (settings : List SystemSetting) {r : QuotaReservation D}
    {settings' : List SystemSetting} where
  -- A reservation that is granted adds one request and the reserved tokens to the day and to the
  -- month, and leaves each of the four counts within its limit.
  pub reserve_within_limits :
      reserve f quota clock day user_id settings ≡ ok (r, settings')
      → (usage_at (day_key f day) settings'
          ≡ one_more quota.tokens_per_request (usage_at (day_key f day) settings))
        × (usage_at (month_key f day) settings'
            ≡ one_more quota.tokens_per_request (usage_at (month_key f day) settings))
        × ((usage_at (day_key f day) settings').requests ≤ quota.request_limit)
        × ((usage_at (day_key f day) settings').tokens ≤ quota.token_limit)
        × (exceeds quota.monthly_request_limit (usage_at (month_key f day) settings').requests
            ≡ false)
        × (exceeds quota.monthly_token_limit (usage_at (month_key f day) settings').tokens ≡ false)
  reserve_within_limits h =
      let (counted, valid, ran, _, table) = reserve_ran f quota clock day user_id settings h in
      let (requests, tokens, month_requests, month_tokens) = checked quota _ _ valid in
      let day_kept =
        count_user_other f clock day quota.per_user_request_limit user_id (day_key f day) settings
          (user_is_not_day f day day) ran in
      let month_kept =
        count_user_other f clock day quota.per_user_request_limit user_id (month_key f day) settings
          (user_is_not_month f day day) ran in
      let of_day =
        ap (usage_at (day_key f day)) table
        ∙ both_stored-day f quota clock day user_id settings counted day_kept in
      let of_month =
        ap (usage_at (month_key f day)) table
        ∙ both_stored-month f quota clock day user_id settings counted month_kept in
      (
        of_day,
        of_month,
        rw of_day requests,
        rw of_day tokens,
        rw of_month (reaches_next quota.monthly_request_limit _ month_requests),
        rw of_month month_tokens,
      )
