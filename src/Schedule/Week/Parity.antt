-- ===== src/Schedule/Week/Parity.antt =====
-- The parity of the weeks around the current one.
use gasu_schedule_bot.Base.{
  ℕ, ◌+◌, ◌-◌, ◌/◌, ◌%◌, ◌≡◌, refl, ap, ◌∙◌, Bool, true, false, not, ◌||◌, arith, ◌==◌, ok,
  raise_if-eq-ok, ok_inj,
}
use gasu_schedule_bot.Schedule.Page.{WeekParity, SourceError, weekday_of}
use gasu_schedule_bot.Schedule.Week.{numbered_parity, odd_difference, parity_for_week}

abbrev pub other_parity : WeekParity → WeekParity
other_parity WeekParity.numerator = WeekParity.denominator
other_parity WeekParity.denominator = WeekParity.numerator

numbered-not : (b : Bool) → numbered_parity (not b) ≡ other_parity (numbered_parity b)
numbered-not true = refl
numbered-not false = refl

odd_next :
    (n c t : ℕ)
    → ((t - c) % 7) ≡ 0
    → ((c - t) % 7) ≡ 0
    → odd_difference (n + (t + 7 - c) / 7) ((c - (t + 7)) / 7)
      ≡ not (odd_difference (n + (t - c) / 7) ((c - t) / 7))
odd_next n c t h h' = ground (arith, h, h')

-- Both checks passed: the anchors are Mondays a whole number of weeks apart.
anchored :
    (n c t : ℕ) {p : WeekParity}
    → parity_for_week n c t ≡ ok p
    → (((weekday_of c ≡ 0) × (weekday_of t ≡ 0)) × (((t - c) % 7 ≡ 0) × ((c - t) % 7 ≡ 0)))
      × (numbered_parity (odd_difference (n + (t - c) / 7) ((c - t) / 7)) ≡ p)
unfolding parity_for_week
anchored n c t h =
    let (mondays, rest) =
      raise_if-eq-ok (not (weekday_of c == 0) || not (weekday_of t == 0)) SourceError.not_monday _
        h in
    let (weeks, same) =
      raise_if-eq-ok (not ((t - c) % 7 == 0) || not ((c - t) % 7 == 0)) SourceError.not_week_offset
        _ rest in
    ((ground (arith, mondays), ground (arith, weeks)), ok_inj same)

-- Where the parity of a week is found, the week after it has the other parity.
pub next_week_alternates :
    (n c t : ℕ) {p : WeekParity}
    → parity_for_week n c t ≡ ok p
    → parity_for_week n c (t + 7) ≡ ok (other_parity p)
unfolding parity_for_week
next_week_alternates n c t h =
    let (((monday, target), (ahead, back)), same) = anchored n c t h in
    let monday' : (weekday_of c == 0) ≡ true = ground (arith, monday) in
    let target' : (weekday_of (t + 7) == 0) ≡ true = ground (arith, target) in
    let ahead' : (((t + 7) - c) % 7 == 0) ≡ true = ground (arith, ahead, back) in
    let back' : ((c - (t + 7)) % 7 == 0) ≡ true = ground (arith, ahead, back) in
    rw (monday', target', ahead', back')
      (ap (λ b. ok (numbered_parity b)) (odd_next n c t ahead back)
        ∙ ap ok (numbered-not _ ∙ ap other_parity same))
