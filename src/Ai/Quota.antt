-- ===== src/Ai/Quota.antt =====
-- `DurableDailyQuota` and `QuotaLimitedProvider` of src/szs_hub/ai/quota.py, on the table of
-- `SystemSetting` rows. How Python writes a date, a month and an integer into a key is the record
-- `Formats`; the provider is any function, which may see other transactions go by.
pub mod Provider
pub mod Rows
pub mod Keys
pub mod Limits
pub mod Users
pub mod Runs
pub mod Charges
use mathlib.Core.Option
use gasu_schedule_bot.Base.{
  ℕ, ◌+◌, ◌-◌, ◌≡◌, ◌≢◌, String, Bool, true, false, ◌||◌, Option, none, some, List, [], ◌∷◌, ◌++◌,
  ltb, leb, if◌then◌else◌, str_eq, Result, ok, raise, ◌>>=◌, ◌>>◌, raise_if,
}
use gasu_schedule_bot.Base.Int.{ℤ, pos, negsuc}
use gasu_schedule_bot.Sql.{update_where}
use gasu_schedule_bot.Ai.Json.{Json, Members, null, boolean, integer, object, empty, member, get}

pub data QuotaError : Type 0 where
  bad_quota bad_user_id : QuotaError
  day_requests day_tokens month_requests month_tokens user_requests : QuotaError

-- A row of `system_settings`; its instant is UTC. The quota leaves `updated_by_user_id` alone.
pub record SystemSetting : Type 0 where
  pub key : String
  pub value : Json
  pub updated_at : ℕ

pub record Usage : Type 0 where
  pub requests : ℕ
  pub tokens : ℕ

pub record QuotaReservation (D : Type 0) : Type 0 where
  pub day : D
  pub reserved_tokens : ℕ

pub record DurableDailyQuota : Type 0 where
  pub request_limit : ℕ
  pub token_limit : ℕ
  pub tokens_per_request : ℕ
  pub per_user_request_limit : Option ℤ
  pub monthly_request_limit : Option ℤ
  pub monthly_token_limit : Option ℤ

-- `DurableDailyQuota.__init__`; a negative value is refused as 0 is.
unfoldable pub new_quota : DurableDailyQuota → Result QuotaError DurableDailyQuota
new_quota quota = do
  raise_if
      (ltb quota.request_limit 1 || (ltb quota.token_limit 1 || ltb quota.tokens_per_request 1))
      bad_quota
  ok quota

-- `isinstance(number, int) and number >= 0`; a Python bool is an int.
abbrev pub count_of : Option Json → ℕ
count_of (some (integer (pos n))) = n
count_of (some (boolean b)) = if b then 1 else 0
count_of _ = 0

-- `_usage`
abbrev pub usage_of : Json → Usage
usage_of (object members) = record {
  requests = count_of (get "requests" members);
  tokens = count_of (get "tokens" members);
}
usage_of _ = record { requests = 0; tokens = 0 }

abbrev pub usage_value : Usage → Json
usage_value usage = object (
    member "requests" (integer (pos usage.requests))
      (member "tokens" (integer (pos usage.tokens)) empty))

-- `session.scalar(select(SystemSetting).where(SystemSetting.key == key))`
unfoldable pub find_setting : String → List SystemSetting → Option SystemSetting
find_setting key [] = none
find_setting key (s ∷ settings) = if str_eq s.key key then some s else find_setting key settings

abbrev pub usage_in : Option SystemSetting → Usage
usage_in none = usage_of null
usage_in (some setting) = usage_of setting.value

abbrev pub set_usage : (String → ℕ) → String → Usage → SystemSetting → SystemSetting
set_usage clock key usage setting = record setting {
  value = usage_value usage;
  updated_at = clock key;
}

-- `_store_usage`: the row that was read is changed, or a new row is added.
unfoldable pub store_usage :
    (String → ℕ)
    → Option SystemSetting
    → String
    → Usage
    → ℕ
    → List SystemSetting
    → List SystemSetting
store_usage clock none key usage reserved settings =
    settings
    ++ record {
      key = key;
      value =
          usage_value (record { requests = usage.requests + 1; tokens = usage.tokens + reserved });
      updated_at = clock key;
    }
      ∷ []
store_usage clock (some setting) key usage reserved settings =
    update_where (λ s. str_eq s.key key)
      (set_usage clock key
        (record { requests = usage.requests + 1; tokens = usage.tokens + reserved }))
      settings

-- `limit is not None and count >= limit`, and with `>`.
abbrev pub reaches : Option ℤ → ℕ → Bool
reaches none count = false
reaches (some (pos limit)) count = leb limit count
reaches (some (negsuc _)) count = true

abbrev pub exceeds : Option ℤ → ℕ → Bool
exceeds none count = false
exceeds (some (pos limit)) count = ltb limit count
exceeds (some (negsuc _)) count = true

abbrev pub joined : String → String → String
joined String.[] t = t
joined (String.◌∷◌ c s) t = String.◌∷◌ c (joined s t)

-- `usage["tokens"] - reserved + actual`, at least 0.
abbrev pub replace_reserved : ℕ → ℕ → Usage → Usage
replace_reserved reserved actual usage = record usage { tokens = usage.tokens + actual - reserved }

abbrev pub reconcile_key : (String → ℕ) → ℕ → ℕ → String → List SystemSetting → List SystemSetting
reconcile_key clock reserved actual key settings =
    update_where (λ s. str_eq s.key key)
      (λ s. set_usage clock key (replace_reserved reserved actual (usage_of s.value)) s) settings

-- `date.isoformat`, `%Y-%m` and the decimal digits of an integer.
pub record Formats (D : Type 0) : Type 0 where
  pub iso_date : D → String
  pub year_month : D → String
  pub digits : ℕ → String

-- The checks of `reserve` on the usage of the day and of the month.
unfoldable pub check_limits : DurableDailyQuota → Usage → Usage → Result QuotaError (Unit {0})
check_limits quota usage month_usage = do
  raise_if (leb quota.request_limit usage.requests) day_requests
  raise_if (ltb quota.token_limit (usage.tokens + quota.tokens_per_request)) day_tokens
  raise_if (reaches quota.monthly_request_limit month_usage.requests) month_requests
  raise_if (exceeds quota.monthly_token_limit (month_usage.tokens + quota.tokens_per_request))
      month_tokens

module _ {D : Type 0} (f : Formats D) where
  unfoldable pub day_key : D → String
  day_key day = joined "ai_usage:" (f.iso_date day)

  unfoldable pub month_key : D → String
  month_key day = joined "ai_usage_month:" (f.year_month day)

  unfoldable pub user_key : D → ℕ → String
  user_key day user_id =
      joined "ai_usage_user:" (joined (f.digits user_id) (joined ":" (f.iso_date day)))

  -- `user_id is None or user_id <= 0`
  abbrev pub positive_id : Option ℤ → Result QuotaError ℕ
  positive_id (some (pos id)) = if ltb 0 id then ok id else raise bad_user_id
  positive_id _ = raise bad_user_id

  -- The part of `reserve` under `self._per_user_request_limit is not None`.
  unfoldable pub count_user :
      (String → ℕ)
      → D
      → Option ℤ
      → Option ℤ
      → List SystemSetting
      → Result QuotaError (List SystemSetting)
  count_user clock day none user_id settings = ok settings
  count_user clock day (some limit) user_id settings = do
    id ← positive_id user_id
    let setting = find_setting (user_key day id) settings
    raise_if (reaches (some limit) (usage_in setting).requests) user_requests
    ok (store_usage clock setting (user_key day id) (usage_in setting) 0 settings)

  unfoldable pub reserve :
      DurableDailyQuota
      → (String → ℕ)
      → D
      → Option ℤ
      → List SystemSetting
      → Result QuotaError (QuotaReservation D × List SystemSetting)
  reserve quota clock day user_id settings = do
    let setting = find_setting (day_key day) settings
    let month_setting = find_setting (month_key day) settings
    check_limits quota (usage_in setting) (usage_in month_setting)
    counted ← count_user clock day quota.per_user_request_limit user_id settings
    let stored =
        store_usage clock setting (day_key day) (usage_in setting) quota.tokens_per_request counted
    ok (
      record { day = day; reserved_tokens = quota.tokens_per_request },
      store_usage clock month_setting (month_key day) (usage_in month_setting)
          quota.tokens_per_request stored,
    )

  unfoldable pub reconcile :
      (String → ℕ) → QuotaReservation D → Option ℤ → List SystemSetting → List SystemSetting
  reconcile clock reservation (some (pos actual)) settings =
      reconcile_key clock reservation.reserved_tokens actual (month_key reservation.day)
        (reconcile_key clock reservation.reserved_tokens actual (day_key reservation.day) settings)
  reconcile clock reservation _ settings = settings
