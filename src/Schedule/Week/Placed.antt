-- ===== src/Schedule/Week/Placed.antt =====
-- The lessons of a week lie in that week.
use gasu_schedule_bot.Base.{
  ℕ, suc, ◌+◌, ◌≤◌, ◌<◌, ◌≡◌, refl, subst, false, not, Bool-cases, inl, inr, Option, none, some,
  List, [], ◌∷◌, arith, leb, ◌==◌, Result, ok, raise, >>=-eq-ok, raise_if-eq-ok, ok_inj, All,
  All-append, sorted-All, Text, text_eq,
}
use gasu_schedule_bot.Schedule.Lesson.{Unicode, Lesson, ScheduleError, check_lesson}
use gasu_schedule_bot.Schedule.Html.{Items, HtmlNode}
use gasu_schedule_bot.Schedule.Page.{
  WeekParity, WeeklyLesson, WeeklySchedule, SourceError, Formats, weekday_of, each, with_subject,
  parse_block, parse_blocks, in_slot, parse_lesson, on_date, with_date, day_with, parse_day,
  week_with, week_parity, parse_week, parse_schedule_html,
}
use gasu_schedule_bot.Schedule.Week.{
  WeekFormats, parity_eq, bell_schedule, lesson_day, checked_lesson, timed, placed, source_day,
  materialize_lesson, earlier_lesson, materialize_week,
}

-- What every round of a loop adds has a property, if the loop returns.
each-All :
    {E A B : Type 0} (P : B → Type 0) (body : ℕ → A → Result E (List B))
    → ((i : ℕ) (x : A) (ys : List B) → body i x ≡ ok ys → All P ys)
    → (i : ℕ) (xs : List A) (ys : List B) → each body i xs ≡ ok ys
    → All P ys
unfolding each
each-All P body step i [] ys h = subst (All P) (ok_inj h) tt
each-All P body step i (x ∷ xs) ys h =
    let (here, ran, h₁) = >>=-eq-ok (body i x) _ h in
    let (rest, later, h₂) = >>=-eq-ok (each body (suc i) xs) _ h₁ in
    subst (All P) (ok_inj h₂)
      (All-append P here rest (step i x here ran) (each-All P body step (suc i) xs rest later))

-- A weekday, and a subject.
abbrev pub IsProper : WeeklyLesson → Type 0
IsProper raw = (raw.weekday < 7) × (text_eq raw.subject [] ≡ false)

abbrev Proper : Result SourceError (List WeeklyLesson) → Type 0
Proper ran = (ls : List WeeklyLesson) → ran ≡ ok ls → All IsProper ls

module _ (u : Unicode) (f : Formats) where
  with_subject-Proper :
      (p : WeekParity) (day slot i : ℕ) (columns : List Text) (subject : Text)
      → Proper (with_subject u f p day slot i columns subject)
  with_subject-Proper p day slot i columns [] ls h = cc
  with_subject-Proper p day slot i columns (c ∷ subject) ls h =
      subst (All IsProper) (ok_inj h) ((omega arith, refl), tt)

  parse_blocks-Proper :
      (p : WeekParity) (day slot : ℕ) (blocks : List HtmlNode)
      → Proper (parse_blocks u f p day slot blocks)
  unfolding parse_block
  parse_blocks-Proper p day slot [] ls h = cc
  parse_blocks-Proper p day slot (b ∷ blocks) ls h =
      each-All IsProper (parse_block u f p day slot)
        (λ i block. with_subject-Proper p day slot i _ _) 0 (b ∷ blocks) ls h

  in_slot-Proper :
      (p : WeekParity) (day : ℕ) (node : HtmlNode) (slot : Option ℕ)
      → Proper (in_slot u f p day node slot)
  in_slot-Proper p day node none ls h = cc
  in_slot-Proper p day node (some slot) ls h = parse_blocks-Proper p day slot _ ls h

  on_date-Proper :
      (p : WeekParity) (lessons : List HtmlNode) (day : Option ℕ)
      → Proper (on_date u f p lessons day)
  unfolding parse_lesson
  on_date-Proper p lessons none ls h = cc
  on_date-Proper p lessons (some day) ls h =
      each-All IsProper (λ _. parse_lesson u f p day) (λ i node. in_slot-Proper p day node _) 0
        lessons ls h

  with_date-Proper :
      (p : WeekParity) (lessons : List HtmlNode) (node : Option HtmlNode)
      → Proper (with_date u f p lessons node)
  with_date-Proper p lessons none ls h = cc
  with_date-Proper p lessons (some node) ls h = on_date-Proper p lessons _ ls h

  day_with-Proper :
      (p : WeekParity) (node : HtmlNode) (lessons : List HtmlNode)
      → Proper (day_with u f p node lessons)
  day_with-Proper p node [] ls h = subst (All IsProper) (ok_inj h) tt
  day_with-Proper p node (l ∷ lessons) ls h = with_date-Proper p (l ∷ lessons) _ ls h

  week_with-Proper :
      (week : HtmlNode) (lessons : List HtmlNode) → Proper (week_with u f week lessons)
  unfolding parse_day
  week_with-Proper week [] ls h = subst (All IsProper) (ok_inj h) tt
  week_with-Proper week (l ∷ lessons) ls h =
      let (p, _, ran) = >>=-eq-ok (week_parity _) _ h in
      each-All IsProper (λ _. parse_day u f p) (λ i node. day_with-Proper p node _) 0 _ ls ran

  parse_schedule_html-Proper :
      (group_key : Text) (page : Items) {schedule : WeeklySchedule}
      → parse_schedule_html u f group_key page ≡ ok schedule
      → All IsProper schedule.lessons
  unfolding parse_schedule_html parse_week
  parse_schedule_html-Proper group_key page h =
      let (lessons, ran, same) = >>=-eq-ok (each (λ _. parse_week u f) 0 _) _ h in
      subst (λ s. All IsProper s.lessons) (ok_inj same)
        (each-All IsProper (λ _. parse_week u f) (λ i week. week_with-Proper week _) 0 _ lessons
          ran)

-- On one of the seven days, and ending after its start.
abbrev pub InWeek : ℕ → Lesson → Type 0
InWeek monday l = (monday ≤ l.day) × (l.day ≤ monday + 6) × (l.starts_at < l.ends_at)

within_week :
    (monday : ℕ) (parity : WeekParity) (raw : WeeklyLesson) (source : Option ℕ) (day : ℕ)
    → raw.weekday < 7
    → lesson_day monday parity raw source ≡ some day
    → (monday ≤ day) × (day ≤ monday + 6)
within_week monday parity raw none day small same =
    elim (Bool-cases (parity_eq raw.parity parity)) [
      | inl e ↦
          let at : monday + raw.weekday ≡ day = some_inj (rw e at same) in
          (omega (arith, at), omega (arith, at, small))
      | inr e ↦ absurd (none_some (rw e at same))
    ]
  where
    some_inj : {a b : ℕ} → ◌≡◌ {A = Option ℕ} (some a) (some b) → a ≡ b
    some_inj e = cc

    none_some : {b : ℕ} → ◌≡◌ {A = Option ℕ} none (some b) → ⊥
    none_some e = cc
within_week monday parity raw (some source) day small same = ground (arith, same)

module _ (u : Unicode) (f : WeekFormats) (monday : ℕ) where
  abbrev Within : Result SourceError (List Lesson) → Type 0
  Within ran = (ls : List Lesson) → ran ≡ ok ls → All (InWeek monday) ls

  checked_lesson-Within :
      (l : Lesson)
      → (monday ≤ l.day)
      → (l.day ≤ monday + 6)
      → (checked : Result ScheduleError Unit) → check_lesson u l ≡ checked
      → Within (checked_lesson l checked)
  unfolding check_lesson
  checked_lesson-Within l first last (raise e) same ls h = cc
  checked_lesson-Within l first last (ok _) same ls h =
      let (order, _) = raise_if-eq-ok (leb l.ends_at l.starts_at) ScheduleError.lesson_end _ same in
      subst (All (InWeek monday)) (ok_inj h) ((first, last, ground (arith, order)), tt)

  timed-Within :
      (group_key : Text) (raw : WeeklyLesson) (source : Option ℕ) (day : ℕ)
      → (monday ≤ day)
      → (day ≤ monday + 6)
      → (times : Option (ℕ × ℕ)) → Within (timed u f group_key raw source day times)
  timed-Within group_key raw source day first last none ls h = cc
  timed-Within group_key raw source day first last (some (starts, ends)) ls h =
      checked_lesson-Within _ first last _ refl ls h

  placed-Within :
      (group_key : Text) (parity : WeekParity) (raw : WeeklyLesson) (source : Option ℕ)
      → raw.weekday < 7
      → (day : Option ℕ) → lesson_day monday parity raw source ≡ day
      → Within (placed u f group_key raw source day)
  placed-Within group_key parity raw source small none same ls h =
      subst (All (InWeek monday)) (ok_inj h) tt
  placed-Within group_key parity raw source small (some day) same ls h =
      let (first, last) = within_week monday parity raw source day small same in
      timed-Within group_key raw source day first last (bell_schedule raw.slot) ls h

  materialize_lesson-Within :
      (group_key : Text) (parity : WeekParity) (raw : WeeklyLesson)
      → raw.weekday < 7
      → Within (materialize_lesson u f group_key monday parity raw)
  unfolding materialize_lesson
  materialize_lesson-Within group_key parity raw small ls h =
      let (source, _, ran) = >>=-eq-ok (source_day u f raw.source_date) _ h in
      placed-Within group_key parity raw source small _ refl ls ran

  materialize_lessons-Within :
      (group_key : Text) (parity : WeekParity) (i : ℕ) (raws : List WeeklyLesson)
      → All IsProper raws
      → Within (each (λ _. materialize_lesson u f group_key monday parity) i raws)
  unfolding each
  materialize_lessons-Within group_key parity i [] proper ls h =
      subst (All (InWeek monday)) (ok_inj h) tt
  materialize_lessons-Within group_key parity i (raw ∷ raws) proper ls h =
      let (here, ran, h₁) = >>=-eq-ok (materialize_lesson u f group_key monday parity raw) _ h in
      let (rest, later, h₂) =
        >>=-eq-ok (each (λ _. materialize_lesson u f group_key monday parity) (suc i) raws) _ h₁ in
      subst (All (InWeek monday)) (ok_inj h₂) (
        All-append (InWeek monday) here rest
          (materialize_lesson-Within group_key parity raw proper.0.0 here ran)
          (materialize_lessons-Within group_key parity (suc i) raws proper.1 rest later))

-- The lessons that a page gives for a week lie on the seven days that begin with its Monday, and
-- end after their start, if the page is read and the week is made of it without an error.
pub page_lessons-InWeek :
    (u : Unicode) (f : WeekFormats) (group_key : Text) (page : Items) (monday : ℕ)
    (parity : WeekParity) {schedule : WeeklySchedule} {lessons : List Lesson}
    → parse_schedule_html u f.dates group_key page ≡ ok schedule
    → materialize_week u f schedule monday parity ≡ ok lessons
    → (weekday_of monday ≡ 0) × All (InWeek monday) lessons
unfolding materialize_week
page_lessons-InWeek u f group_key page monday parity {schedule} parsed made =
    let proper = parse_schedule_html-Proper u f.dates group_key page parsed in
    let (at_monday, h₁) =
      raise_if-eq-ok (not (weekday_of monday == 0)) SourceError.not_monday _ made in
    let (unsorted, ran, same) =
      >>=-eq-ok
        (each (λ _. materialize_lesson u f schedule.group_key monday parity) 0 schedule.lessons) _
        h₁ in
    (
      ground (arith, at_monday),
      subst (All (InWeek monday)) (ok_inj same) (
          sorted-All earlier_lesson (InWeek monday) unsorted (
            materialize_lessons-Within u f monday schedule.group_key parity 0 schedule.lessons
              proper unsorted ran)),
    )
