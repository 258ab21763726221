-- ===== src/Ai/Quota/Keys.antt =====
-- The keys of the day, of the month and of a user never coincide, whatever the formats write.
use Prim.Native.Char.{code}
use gasu_schedule_bot.Base.{ℕ, zero, suc, ◌≡◌, ◌≢◌, String, ap, arith}
use gasu_schedule_bot.Ai.Quota.{Formats, day_key, month_key, user_key}

-- The code of the character at a position.
abbrev code_at : ℕ → String → ℕ
code_at n String.[] = 0
code_at zero (String.◌∷◌ c s) = code c
code_at (suc n) (String.◌∷◌ c s) = code_at n s

module _ {D : Type 0} (f : Formats D) (d d' : D) where
  pub day_is_not_month : day_key f d ≢ month_key f d'
  unfolding day_key month_key
  day_is_not_month e = let codes : 58 ≡ 95 = ap (code_at 8) e in absurd (omega (arith, codes))

  pub user_is_not_day : (id : ℕ) → user_key f d id ≢ day_key f d'
  unfolding user_key day_key
  user_is_not_day id e = let codes : 95 ≡ 58 = ap (code_at 8) e in absurd (omega (arith, codes))

  pub user_is_not_month : (id : ℕ) → user_key f d id ≢ month_key f d'
  unfolding user_key month_key
  user_is_not_month id e = let codes : 117 ≡ 109 = ap (code_at 9) e in absurd (omega (arith, codes))
