-- ===== src/Ai/Quota/Rows.antt =====
-- What a stored usage is read back as, and that a key leaves the rows of the other keys alone.
use text.Mathlib.TextPositions.{eq_refl}
use mathlib.Core.Option
use gasu_schedule_bot.Base.{
  ℕ, ◌+◌, ◌≡◌, ◌≢◌, refl, String, false, Option, none, some, List, [], ◌∷◌, ◌++◌, str_eq, eq_iff,
  Bool-cases, inl, inr, arith,
}
use gasu_schedule_bot.Sql.{update_where}
use gasu_schedule_bot.Ai.Quota.{
  SystemSetting, Usage, usage_of, usage_value, find_setting, usage_in, set_usage, store_usage,
}

pub usage_of-usage_value : (usage : Usage) → usage_of (usage_value usage) ≡ usage
usage_of-usage_value usage = refl

pub find-append :
    (key : String) (row : SystemSetting) (settings : List SystemSetting)
    → find_setting key settings ≡ none
    → find_setting key (settings ++ row ∷ []) ≡ find_setting key (row ∷ [])
unfolding find_setting
find-append key row [] h = refl
find-append key row (s ∷ settings) h = elim (Bool-cases (str_eq s.key key)) [
  | inl e ↦ cc (rw e at h)
  | inr e ↦ rw e (find-append key row settings (rw e at h))
]

pub find-append_other :
    (key : String) (row : SystemSetting) (settings : List SystemSetting)
    → str_eq row.key key ≡ false
    → find_setting key (settings ++ row ∷ []) ≡ find_setting key settings
unfolding find_setting
find-append_other key row [] h = rw h
find-append_other key row (s ∷ settings) h = ground (arith, find-append_other key row settings h)

module _ (key : String) (f : SystemSetting → SystemSetting)
    (same : (s : SystemSetting) → (f s).key ≡ s.key) where
  pub find-update :
      (settings : List SystemSetting)
      → find_setting key (update_where (λ s. str_eq s.key key) f settings)
        ≡ Option.map f (find_setting key settings)
  unfolding find_setting update_where
  find-update [] = refl
  find-update (s ∷ settings) = elim (Bool-cases (str_eq s.key key)) [
    | inl e ↦ rw (e, same s, e) refl
    | inr e ↦ rw (e, e) (find-update settings)
  ]

  pub find-update_other :
      (other : String) (settings : List SystemSetting)
      → key ≢ other
      → find_setting other (update_where (λ s. str_eq s.key key) f settings)
        ≡ find_setting other settings
  unfolding find_setting update_where
  find-update_other other [] h = refl
  find-update_other other (s ∷ settings) h = elim (Bool-cases (str_eq s.key key)) [
    | inl e ↦
        let skipped : str_eq s.key other ≡ false =
          ground (arith, e, h, eq_iff s.key key, eq_iff s.key other) in
        rw (e, same s, skipped) (find-update_other other settings h)
    | inr e ↦ rw e (ground (arith, find-update_other other settings h))
  ]

module _ (clock : String → ℕ) (key : String) (usage : Usage) (reserved : ℕ) where
  pub usage-store :
      (settings : List SystemSetting) (setting : Option SystemSetting)
      → find_setting key settings ≡ setting
      → usage_in (find_setting key (store_usage clock setting key usage reserved settings))
        ≡ record { requests = usage.requests + 1; tokens = usage.tokens + reserved }
  unfolding store_usage
  usage-store settings none h =
      rw (find-append key _ settings h) (unfold find_setting in rw (eq_refl key) refl)
  usage-store settings (some s) h =
      rw
        (
          find-update key
              (set_usage clock key
                (record { requests = usage.requests + 1; tokens = usage.tokens + reserved }))
              (λ x. refl) settings,
          h,
        )
        refl

  pub find-store_other :
      (other : String) (settings : List SystemSetting) (setting : Option SystemSetting)
      → key ≢ other
      → find_setting other (store_usage clock setting key usage reserved settings)
        ≡ find_setting other settings
  unfolding store_usage
  find-store_other other settings none h =
      find-append_other other _ settings (ground (arith, h, eq_iff key other))
  find-store_other other settings (some s) h = find-update_other key _ (λ x. refl) other settings h
