-- ===== src/Ai/Quota/Provider.antt =====
-- `QuotaLimitedProvider.chat` of src/szs_hub/ai/quota.py. The wrapped provider is a function of
-- the request and of the settings, since other transactions commit while it runs.
use gasu_schedule_bot.Base.{ℕ, ◌+◌, String, Option, none, some, List, Result, ok, raise}
use gasu_schedule_bot.Base.Int.{ℤ, pos}
use gasu_schedule_bot.Ai.Quota.{
  QuotaError, SystemSetting, DurableDailyQuota, QuotaReservation, Formats, reserve, reconcile,
}

pub record AiResponse : Type 0 where
  pub text : String
  pub model : Option String
  pub prompt_tokens : Option ℤ
  pub completion_tokens : Option ℤ

pub data ChatError : Type 0 where
  quota : QuotaError → ChatError
  provider : String → ChatError

-- The metered tokens, where the response has both counts and neither is negative.
unfoldable pub actual_tokens : AiResponse → Option ℤ
actual_tokens response = total response.prompt_tokens response.completion_tokens
  where
    total : Option ℤ → Option ℤ → Option ℤ
    total (some (pos p)) (some (pos c)) = some (pos (p + c))
    total _ _ = none

abbrev pub Provider : Type 0 → Type 0
Provider Request = Request → List SystemSetting → Result String AiResponse × List SystemSetting

module _ {D Request : Type 0} (f : Formats D) (chat_provider : Provider Request)
    (limits : DurableDailyQuota) where
  -- What follows the provider's answer; an exception leaves the reservation as it is.
  abbrev pub settle :
      (String → ℕ)
      → QuotaReservation D
      → Result String AiResponse × List SystemSetting
      → Result ChatError AiResponse × List SystemSetting
  settle clock reservation (raise error, settings) = (raise (provider error), settings)
  settle clock reservation (ok response, settings) =
      (ok response, reconcile f clock reservation (actual_tokens response) settings)

  abbrev pub admitted :
      (String → ℕ)
      → Request
      → List SystemSetting
      → Result QuotaError (QuotaReservation D × List SystemSetting)
      → Result ChatError AiResponse × List SystemSetting
  admitted clock request settings (raise error) = (raise (quota error), settings)
  admitted clock request settings (ok (reservation, reserved)) =
      settle clock reservation (chat_provider request reserved)

  unfoldable pub chat :
      (String → ℕ)
      → (String → ℕ)
      → D
      → Option ℤ
      → Request
      → List SystemSetting
      → Result ChatError AiResponse × List SystemSetting
  chat reserve_clock clock day user_id request settings =
      admitted clock request settings (reserve f limits reserve_clock day user_id settings)
