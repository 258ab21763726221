-- ===== src/Jobs/Policy/Backoff.antt =====
-- The retry delay grows by doubling, between the base and the cap of a valid policy.
use native.Mathlib.Nat.{pow-suc, one-le-pow, pow-le-pow_right}
use gasu_schedule_bot.Base.{
  ℕ, suc, ◌+◌, ◌-◌, ◌*◌, ◌^◌, ◌≤◌, ◌<◌, min, ◌≡◌, refl, ok, arith, ltb, if◌then◌else◌, Bool-cases,
  inl, inr,
}
use gasu_schedule_bot.Jobs.Policy.{retry_delay, validate_retry_policy, max_retry_delay}

-- Under a policy that the constructor accepts every delay lies between the base and the cap, and
-- the cap is at most a day.
pub retry_delay_bounds :
    (attempt base cap : ℕ)
    → validate_retry_policy base cap ≡ ok tt
    → (0 < base)
      × (base ≤ retry_delay attempt base cap)
      × (retry_delay attempt base cap ≤ cap)
      × (cap ≤ max_retry_delay)
unfolding validate_retry_policy retry_delay
retry_delay_bounds attempt base cap h =
    let pos = one-le-pow (min (attempt - 1) 30) 2 (omega arith) in grind (arith, pos)

-- A later attempt never waits less.
pub retry_delay_mono : (base cap m n : ℕ) → m ≤ n → retry_delay m base cap ≤ retry_delay n base cap
unfolding retry_delay
retry_delay_mono base cap m n h =
    let grows : 2 ^ min (m - 1) 30 ≤ 2 ^ min (n - 1) 30 =
      pow-le-pow_right (omega arith) (omega arith) in
    grind (arith, grows)

-- The first delay is the base, and the next attempt waits twice as long, up to the cap, until the
-- thirty-first attempt; from there on the delay stays as it is.
pub retry_delay_doubles :
    (base cap n : ℕ)
    → (retry_delay 1 base cap ≡ min base cap)
      × (retry_delay (n + 2) base cap ≡ (
          if ltb n 30
          then min (2 * retry_delay (n + 1) base cap) cap
          else retry_delay (n + 1) base cap))
unfolding retry_delay
retry_delay_doubles base cap n = (
  omega arith,
  elim (Bool-cases (ltb n 30)) [
    | inl early ↦
        let small : n < 30 = ground (arith, early) in
        let after : min (n + 2 - 1) 30 ≡ suc n = omega arith in
        let before : min (n + 1 - 1) 30 ≡ n = omega arith in
        rw (early, after, before, pow-suc) (omega arith)
    | inr late ↦
        let large : 30 ≤ n = ground (arith, late) in
        let after : min (n + 2 - 1) 30 ≡ 30 = omega arith in
        let before : min (n + 1 - 1) 30 ≡ 30 = omega arith in rw (late, after, before) refl
  ],
)
