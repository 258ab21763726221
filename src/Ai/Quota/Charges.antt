-- ===== src/Ai/Quota/Charges.antt =====
-- What one call of the assistant costs.
use gasu_schedule_bot.Base.{
  ℕ, ◌+◌, ◌-◌, ◌≡◌, ◌≢◌, refl, sym, ap, ◌∙◌, String, Option, none, some, List, arith, Result, ok,
  raise,
}
use gasu_schedule_bot.Base.Int.{ℤ, pos, negsuc}
use gasu_schedule_bot.Ai.Quota.{
  SystemSetting, Usage, DurableDailyQuota, QuotaReservation, Formats, day_key, month_key, usage_in,
  find_setting, reconcile_key, replace_reserved, reserve, reconcile,
}
use gasu_schedule_bot.Ai.Quota.Keys.{day_is_not_month}
use gasu_schedule_bot.Ai.Quota.Limits.{usage_at, one_more, reserve_ran, reserve_within_limits}
use gasu_schedule_bot.Ai.Quota.Runs.{usage-reconcile_key, find-reconcile_key_other}
use gasu_schedule_bot.Ai.Quota.Provider.{AiResponse, Provider, actual_tokens, settle, chat}

abbrev pub metered : ℕ → Option ℤ → ℕ
metered reserved (some (pos actual)) = actual
metered reserved _ = reserved

-- What the two counts of an answer charge: their sum, and with either of them missing or negative
-- the whole reservation.
abbrev pub counted : ℕ → Option ℤ → Option ℤ → ℕ
counted reserved none completion = reserved
counted reserved (some (negsuc p)) completion = reserved
counted reserved (some (pos p)) none = reserved
counted reserved (some (pos p)) (some (negsuc c)) = reserved
counted reserved (some (pos p)) (some (pos c)) = p + c

abbrev pub charged : ℕ → Result String AiResponse → ℕ
charged reserved (raise error) = reserved
charged reserved (ok response) = counted reserved response.prompt_tokens response.completion_tokens

metered-actual_tokens :
    (reserved : ℕ) (text : String) (model : Option String) (prompt completion : Option ℤ)
    → metered reserved (
        actual_tokens (record {
          text = text;
          model = model;
          prompt_tokens = prompt;
          completion_tokens = completion;
        }))
      ≡ counted reserved prompt completion
unfolding actual_tokens
metered-actual_tokens reserved text model none completion = refl
metered-actual_tokens reserved text model (some (negsuc p)) completion = refl
metered-actual_tokens reserved text model (some (pos p)) none = refl
metered-actual_tokens reserved text model (some (pos p)) (some (negsuc c)) = refl
metered-actual_tokens reserved text model (some (pos p)) (some (pos c)) = refl

-- The usage after a call.
abbrev pub one_charged : ℕ → Usage → Usage
one_charged tokens usage = record { requests = usage.requests + 1; tokens = usage.tokens + tokens }

there :
    (key : String) (settings : List SystemSetting) (n : ℕ)
    → (usage_at key settings).requests ≡ n + 1
    → find_setting key settings ≢ none
there key settings n h missing =
    let zero_more : 0 ≡ n + 1 = sym (ap (λ s. (usage_in s).requests) missing) ∙ h in
    absurd (omega (arith, zero_more))

replaced :
    (reserved actual : ℕ) (u : Usage)
    → replace_reserved reserved actual (one_more reserved u) ≡ one_charged actual u
replaced reserved actual u =
    let sum : u.tokens + reserved + actual - reserved ≡ u.tokens + actual = omega arith in
    rw sum refl

module _ {D : Type 0} (f : Formats D) (clock : String → ℕ) (r : QuotaReservation D) (u : Usage)
    (settings : List SystemSetting) where
  reconcile_day :
      (actual : ℕ)
      → usage_at (day_key f r.day) settings ≡ one_more r.reserved_tokens u
      → usage_at (day_key f r.day) (reconcile f clock r (some (pos actual)) settings)
        ≡ one_charged actual u
  unfolding reconcile
  reconcile_day actual h =
      ap usage_in (
        find-reconcile_key_other clock r.reserved_tokens actual (month_key f r.day)
          (reconcile_key clock r.reserved_tokens actual (day_key f r.day) settings)
          (day_key f r.day) (λ e. day_is_not_month f r.day r.day (sym e)))
      ∙ usage-reconcile_key clock r.reserved_tokens actual (day_key f r.day) settings
          (there (day_key f r.day) settings u.requests (ap (λ (x : Usage). x.requests) h))
      ∙ ap (replace_reserved r.reserved_tokens actual) h
      ∙ replaced r.reserved_tokens actual u

  reconcile_month :
      (actual : ℕ)
      → usage_at (month_key f r.day) settings ≡ one_more r.reserved_tokens u
      → usage_at (month_key f r.day) (reconcile f clock r (some (pos actual)) settings)
        ≡ one_charged actual u
  unfolding reconcile
  reconcile_month actual h =
      let kept =
        ap usage_in (
          find-reconcile_key_other clock r.reserved_tokens actual (day_key f r.day) settings
            (month_key f r.day) (day_is_not_month f r.day r.day))
        ∙ h in
      usage-reconcile_key clock r.reserved_tokens actual (month_key f r.day)
        (reconcile_key clock r.reserved_tokens actual (day_key f r.day) settings)
        (there (month_key f r.day) _ u.requests (ap (λ (x : Usage). x.requests) kept))
      ∙ ap (replace_reserved r.reserved_tokens actual) kept
      ∙ replaced r.reserved_tokens actual u

module _ {D : Type 0} (f : Formats D) (clock : String → ℕ) (r : QuotaReservation D)
    (day_usage month_usage : Usage) (reserved : List SystemSetting) where
  reconciled :
      (tokens : Option ℤ)
      → usage_at (day_key f r.day) reserved ≡ one_more r.reserved_tokens day_usage
      → usage_at (month_key f r.day) reserved ≡ one_more r.reserved_tokens month_usage
      → (usage_at (day_key f r.day) (reconcile f clock r tokens reserved)
          ≡ one_charged (metered r.reserved_tokens tokens) day_usage)
        × (usage_at (month_key f r.day) (reconcile f clock r tokens reserved)
            ≡ one_charged (metered r.reserved_tokens tokens) month_usage)
  reconciled none h k = unfold reconcile in (h, k)
  reconciled (some (negsuc n)) h k = unfold reconcile in (h, k)
  reconciled (some (pos actual)) h k = (
    reconcile_day f clock r day_usage reserved actual h,
    reconcile_month f clock r month_usage reserved actual k,
  )

  settled :
      {Request : Type 0} (provider : Provider Request) (limits : DurableDailyQuota)
      (answer : Result String AiResponse)
      → usage_at (day_key f r.day) reserved ≡ one_more r.reserved_tokens day_usage
      → usage_at (month_key f r.day) reserved ≡ one_more r.reserved_tokens month_usage
      → (usage_at (day_key f r.day) (settle f provider limits clock r (answer, reserved)).1
          ≡ one_charged (charged r.reserved_tokens answer) day_usage)
        × (usage_at (month_key f r.day) (settle f provider limits clock r (answer, reserved)).1
            ≡ one_charged (charged r.reserved_tokens answer) month_usage)
  settled provider limits (raise error) h k = (h, k)
  settled provider limits (ok response) h k =
      let charge =
        metered-actual_tokens r.reserved_tokens response.text response.model response.prompt_tokens
          response.completion_tokens in
      rw (← charge) (reconciled (actual_tokens response) h k)

module _ {D Request : Type 0} (f : Formats D) (limits : DurableDailyQuota)
    (reserve_clock clock : String → ℕ) (day : D) (user_id : Option ℤ) (request : Request)
    (settings : List SystemSetting) {r : QuotaReservation D} {reserved : List SystemSetting}
    (answer : Result String AiResponse) where
  -- A call that is admitted, and during which no other call touches the settings, adds one request
  -- to the day and to the month. It charges both the sum of the prompt and the completion tokens if
  -- the provider answers with both counts and neither is negative, and the whole reservation if it
  -- answers without one of them or raises.
  pub chat_charges :
      reserve f limits reserve_clock day user_id settings ≡ ok (r, reserved)
      → (usage_at
            (day_key f day)
            (chat f (λ _ s. (answer, s)) limits reserve_clock clock day user_id request settings).1
          ≡ one_charged
              (charged limits.tokens_per_request answer)
              (usage_at (day_key f day) settings))
        × (usage_at
              (month_key f day)
              (chat f
                (λ _ s. (answer, s))
                limits
                reserve_clock
                clock
                day
                user_id
                request
                settings).1
            ≡ one_charged
                (charged limits.tokens_per_request answer)
                (usage_at (month_key f day) settings))
  unfolding chat
  chat_charges h =
      let (of_day, of_month, _, _, _, _) =
        reserve_within_limits f limits reserve_clock day user_id settings h in
      let (_, _, _, is_r, _) = reserve_ran f limits reserve_clock day user_id settings h in
      rw (h, is_r)
        (settled f clock (record { day = day; reserved_tokens = limits.tokens_per_request })
          (usage_at (day_key f day) settings) (usage_at (month_key f day) settings) reserved
          {Request = Request} (λ _ s. (answer, s)) limits answer of_day of_month)
