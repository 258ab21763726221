-- ===== src/Ai/Tests.antt =====
-- The quota on concrete settings: runs, and the theorems at concrete inputs.
use gasu_schedule_bot.Base.{
  ℕ, ◌+◌, ◌≤◌, ◌≡◌, refl, String, false, none, some, List, [], ◌∷◌, if◌then◌else◌, str_eq, max,
  Result, ok, raise,
}
use gasu_schedule_bot.Base.Int.{pos}
use gasu_schedule_bot.Ai.Quota.{
  SystemSetting, DurableDailyQuota, Formats, day_tokens, usage_value, day_key, month_key, user_key,
  exceeds, find_setting, store_usage, count_user, check_limits, reserve,
}
use gasu_schedule_bot.Ai.Quota.Limits.{usage_at, one_more, reserve_within_limits}
use gasu_schedule_bot.Ai.Quota.Users.{reserve_within_user_limit}
use gasu_schedule_bot.Ai.Quota.Runs.{start, reserves, requests_counted}
use gasu_schedule_bot.Ai.Quota.Provider.{AiResponse, chat}
use gasu_schedule_bot.Ai.Quota.Charges.{charged, one_charged, chat_charges}

-- Days as ISO text.
abbrev formats : Formats String
formats = record { iso_date = λ d. d; year_month = λ d. "2026-09"; digits = λ n. "17" }

abbrev limits : DurableDailyQuota
limits = record {
  request_limit = 2;
  token_limit = 900;
  tokens_per_request = 400;
  per_user_request_limit = some (pos 1);
  monthly_request_limit = some (pos 40);
  monthly_token_limit = none;
}

abbrev clock : String → ℕ
clock key = 7

abbrev row : String → ℕ → ℕ → SystemSetting
row key requests tokens = record {
  key = key;
  value = usage_value (record { requests = requests; tokens = tokens });
  updated_at = 7;
}

abbrev reserved : List SystemSetting
reserved =
    row "ai_usage_user:17:2026-09-01" 1 0
    ∷ row "ai_usage:2026-09-01" 1 400
    ∷ row "ai_usage_month:2026-09" 1 400
    ∷ []

reservation :
    reserve formats limits clock "2026-09-01" (some (pos 17)) []
    ≡ ok (record { day = "2026-09-01"; reserved_tokens = 400 }, reserved)
unfolding reserve check_limits count_user store_usage find_setting day_key month_key user_key
reservation = refl

abbrev later_limits : DurableDailyQuota
later_limits = record limits { per_user_request_limit = none; request_limit = 9 }

-- A third reservation of 400 tokens would pass the limit of 900.
tokens_exhausted :
    reserve formats later_limits clock "2026-09-01" none (row "ai_usage:2026-09-01" 2 800 ∷ [])
    ≡ raise day_tokens
unfolding reserve check_limits count_user store_usage find_setting day_key month_key user_key
tokens_exhausted = refl

reserve_within_limits_example :
    (usage_at (day_key formats "2026-09-01") reserved
      ≡ one_more 400 (usage_at (day_key formats "2026-09-01") []))
    × (usage_at (month_key formats "2026-09-01") reserved
        ≡ one_more 400 (usage_at (month_key formats "2026-09-01") []))
    × ((usage_at (day_key formats "2026-09-01") reserved).requests ≤ 2)
    × ((usage_at (day_key formats "2026-09-01") reserved).tokens ≤ 900)
    × (exceeds (some (pos 40)) (usage_at (month_key formats "2026-09-01") reserved).requests
        ≡ false)
    × (exceeds none (usage_at (month_key formats "2026-09-01") reserved).tokens ≡ false)
reserve_within_limits_example =
    reserve_within_limits formats limits clock "2026-09-01" (some (pos 17)) [] reservation

reserve_within_user_limit_example :
    ((usage_at (user_key formats "2026-09-01" 17) reserved).requests
      ≡ (usage_at (user_key formats "2026-09-01" 17) []).requests + 1)
    × (exceeds (some (pos 1)) (usage_at (user_key formats "2026-09-01" 17) reserved).requests
        ≡ false)
reserve_within_user_limit_example =
    reserve_within_user_limit formats clock "2026-09-01" (pos 1) 17 limits [] refl reservation

requests_counted_example :
    ((usage_at (day_key formats "2026-09-01") reserved).requests
      ≡ (if str_eq (day_key formats "2026-09-01") (day_key formats "2026-09-01") then 1 else 0)
        + (usage_at (day_key formats "2026-09-01") []).requests)
    × ((usage_at (day_key formats "2026-09-01") reserved).requests
        ≤ max (usage_at (day_key formats "2026-09-01") []).requests 2)
requests_counted_example = requests_counted formats limits "2026-09-01" (
    reserves clock "2026-09-01" (some (pos 17))
      (record { day = "2026-09-01"; reserved_tokens = 400 }) start reservation)

-- The provider answers, and reports 120 tokens.
abbrev answer : Result String AiResponse
answer = ok (record {
  text = "да";
  model = none;
  prompt_tokens = some (pos 100);
  completion_tokens = some (pos 20);
})

abbrev after_chat : List SystemSetting
after_chat =
    (chat formats (λ (_ : String) s. (answer, s)) limits clock clock "2026-09-01" (some (pos 17))
      "?" []).1

answer-charged : charged 400 answer ≡ 120
answer-charged = refl

-- An answer that reports one count alone is charged the reservation.
abbrev partial : Result String AiResponse
partial =
    ok (record {
      text = "да";
      model = none;
      prompt_tokens = some (pos 100);
      completion_tokens = none;
    })

partial-charged : charged 400 partial ≡ 400
partial-charged = refl

chat_charges_example :
    (usage_at (day_key formats "2026-09-01") after_chat
      ≡ one_charged (charged 400 answer) (usage_at (day_key formats "2026-09-01") []))
    × (usage_at (month_key formats "2026-09-01") after_chat
        ≡ one_charged (charged 400 answer) (usage_at (month_key formats "2026-09-01") []))
chat_charges_example =
    chat_charges formats limits clock clock "2026-09-01" (some (pos 17)) "?" [] answer reservation
