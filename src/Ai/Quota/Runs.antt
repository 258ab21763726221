-- ===== src/Ai/Quota/Runs.antt =====
-- Any sequence of granted reservations and reconciliations, and the requests that a day then has.
use mathlib.Core.Option
use gasu_schedule_bot.Base.{
  ℕ, suc, ◌+◌, ◌≤◌, ◌≡◌, ◌≢◌, refl, sym, ap, ◌∙◌, String, Option, none, some, List, arith,
  if◌then◌else◌, str_eq, eq_iff, ok, max, Bool-cases, inl, inr,
}
use gasu_schedule_bot.Base.Int.{ℤ, pos, negsuc}
use gasu_schedule_bot.Ai.Quota.{
  SystemSetting, Usage, DurableDailyQuota, QuotaReservation, Formats, day_key, month_key, usage_in,
  usage_of, find_setting, store_usage, set_usage, replace_reserved, reserve, reconcile,
  reconcile_key,
}
use gasu_schedule_bot.Ai.Quota.Rows.{find-store_other, find-update, find-update_other}
use gasu_schedule_bot.Ai.Quota.Keys.{day_is_not_month, user_is_not_day}
use gasu_schedule_bot.Ai.Quota.Limits.{
  usage_at, reserve_ran, count_user_other, reserve_within_limits,
}

module _ (clock : String → ℕ) (reserved actual : ℕ) (key : String)
    (settings : List SystemSetting) where
  pub usage-reconcile_key :
      find_setting key settings ≢ none
      → usage_at key (reconcile_key clock reserved actual key settings)
        ≡ replace_reserved reserved actual (usage_at key settings)
  usage-reconcile_key there =
      rw
        (find-update key
          (λ s. set_usage clock key (replace_reserved reserved actual (usage_of s.value)) s)
          (λ x. refl) settings)
        (found (find_setting key settings) there)
    where
      found :
          (setting : Option SystemSetting)
          → setting ≢ none
          → usage_in (
              Option.map
                (λ s. set_usage clock key (replace_reserved reserved actual (usage_of s.value)) s)
                setting)
            ≡ replace_reserved reserved actual (usage_in setting)
      found none h = absurd (h refl)
      found (some s) h = refl

  requests-reconcile_key :
      (usage_at key (reconcile_key clock reserved actual key settings)).requests
      ≡ (usage_at key settings).requests
  requests-reconcile_key =
      rw
        (find-update key
          (λ s. set_usage clock key (replace_reserved reserved actual (usage_of s.value)) s)
          (λ x. refl) settings)
        (kept (find_setting key settings))
    where
      kept :
          (setting : Option SystemSetting)
          → (usage_in (
              Option.map
                (λ s. set_usage clock key (replace_reserved reserved actual (usage_of s.value)) s)
                setting)).requests
            ≡ (usage_in setting).requests
      kept none = refl
      kept (some s) = refl

  pub find-reconcile_key_other :
      (other : String)
      → key ≢ other
      → find_setting other (reconcile_key clock reserved actual key settings)
        ≡ find_setting other settings
  find-reconcile_key_other other h =
      find-update_other key
        (λ s. set_usage clock key (replace_reserved reserved actual (usage_of s.value)) s)
        (λ x. refl) other settings h

  pub requests-reconcile_key_any :
      (at : String)
      → (usage_at at (reconcile_key clock reserved actual key settings)).requests
        ≡ (usage_at at settings).requests
  requests-reconcile_key_any at = elim (Bool-cases (str_eq key at)) [
    | inl e ↦ let same = (eq_iff key at).0 e in rw (← same) requests-reconcile_key
    | inr e ↦
        ap (λ s. (usage_in s).requests)
          (find-reconcile_key_other at (λ same. absurd (ground (arith, e, (eq_iff key at).1 same))))
  ]

module _ {D : Type 0} (f : Formats D) where
  pub requests-reconcile :
      (clock : String → ℕ) (r : QuotaReservation D) (actual : Option ℤ)
      (settings : List SystemSetting) (at : String)
      → (usage_at at (reconcile f clock r actual settings)).requests
        ≡ (usage_at at settings).requests
  unfolding reconcile
  requests-reconcile clock r none settings at = refl
  requests-reconcile clock r (some (negsuc n)) settings at = refl
  requests-reconcile clock r (some (pos n)) settings at =
      requests-reconcile_key_any clock r.reserved_tokens n (month_key f r.day) _ at
      ∙ requests-reconcile_key_any clock r.reserved_tokens n (day_key f r.day) settings at

  -- A reservation on another day leaves the row of this day alone.
  reserve_other_day :
      (quota : DurableDailyQuota) (clock : String → ℕ) (day other : D) (user_id : Option ℤ)
      (settings : List SystemSetting) {r : QuotaReservation D} {settings' : List SystemSetting}
      → day_key f other ≢ day_key f day
      → reserve f quota clock other user_id settings ≡ ok (r, settings')
      → find_setting (day_key f day) settings' ≡ find_setting (day_key f day) settings
  reserve_other_day quota clock day other user_id settings apart h =
      let (counted, _, ran, _, table) = reserve_ran f quota clock other user_id settings h in
      let key = day_key f day in
      ap (find_setting key) table
      ∙ find-store_other clock (month_key f other) (usage_at (month_key f other) settings)
          quota.tokens_per_request key
          (store_usage clock (find_setting (day_key f other) settings) (day_key f other)
            (usage_at (day_key f other) settings) quota.tokens_per_request counted)
          (find_setting (month_key f other) settings) (λ e. day_is_not_month f day other (sym e))
      ∙ find-store_other clock (day_key f other) (usage_at (day_key f other) settings)
          quota.tokens_per_request key counted (find_setting (day_key f other) settings) apart
      ∙ count_user_other f clock other quota.per_user_request_limit user_id key settings
          (user_is_not_day f other day) ran

  module _ (quota : DurableDailyQuota) (day : D) where
    -- `Run n before after`: calls that returned, `n` of them reservations of the day.
    pub data Run (settings : List SystemSetting) : ℕ → List SystemSetting → Type 0 where
      start : Run settings 0 settings
      reserves :
          {n : ℕ} {before after : List SystemSetting} (clock : String → ℕ) (on : D)
          (user_id : Option ℤ) (r : QuotaReservation D)
          → Run settings n before
          → reserve f quota clock on user_id before ≡ ok (r, after)
          → Run settings (if str_eq (day_key f on) (day_key f day) then suc n else n) after
      reconciles :
          {n : ℕ} {before : List SystemSetting} (clock : String → ℕ) (r : QuotaReservation D)
          (actual : Option ℤ)
          → Run settings n before
          → Run settings n (reconcile f clock r actual before)

    -- However the calls of all days and users are ordered, the requests that the table records for
    -- a day grow by exactly the reservations of that day. They never pass the limit or, where they
    -- started above it, what they started from.
    pub requests_counted :
        {settings settings' : List SystemSetting} {n : ℕ}
        → Run settings n settings'
        → ((usage_at (day_key f day) settings').requests
            ≡ n + (usage_at (day_key f day) settings).requests)
          × ((usage_at (day_key f day) settings').requests
              ≤ max (usage_at (day_key f day) settings).requests quota.request_limit)
    requests_counted start = (omega arith, omega arith)
    requests_counted (reconciles {n} {before} clock r actual run) =
        let (counted, within) = requests_counted run in
        let kept = requests-reconcile clock r actual before (day_key f day) in
        (kept ∙ counted, rw kept within)
    requests_counted (reserves {n} {before} {after} clock on user_id r run h) =
        let (counted, within) = requests_counted run in
        elim (Bool-cases (str_eq (day_key f on) (day_key f day))) [
          | inl e ↦
              let same = (eq_iff (day_key f on) (day_key f day)).0 e in
              let (one, _, limited, _, _, _) =
                reserve_within_limits f quota clock on user_id before h in
              let count = ap (λ (u : Usage). u.requests) (rw same at one) in
              let low = rw same at limited in
              rw e (omega (arith, count, counted), omega (arith, low))
          | inr e ↦
              let apart : day_key f on ≢ day_key f day = λ same.
                absurd (ground (arith, e, (eq_iff (day_key f on) (day_key f day)).1 same)) in
              let kept =
                ap (λ s. (usage_in s).requests)
                  (reserve_other_day quota clock day on user_id before apart h) in
              rw e (kept ∙ counted, rw kept within)
        ]
