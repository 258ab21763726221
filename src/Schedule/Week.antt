-- ===== src/Schedule/Week.antt =====
-- A week of lessons from the template, and the parity of a week: `materialize_week` and
-- `parity_for_week` of src/szs_hub/schedule/spbgasu.py. A date is its ordinal; the regular
-- expression for a lesson's type and the hash of a source are parameters.
pub mod Parity
pub mod Placed
use gasu_schedule_bot.Base.{
  ℕ, ◌+◌, ◌-◌, ◌*◌, ◌/◌, ◌%◌, Bool, true, false, ◌&&◌, ◌||◌, not, Option, none, some, List, [], ◌∷◌,
  ◌++◌, compare, leb, ◌==◌, if◌then◌else◌, Text, text_eq, text_compare, ◌⊕◌, is_less, sorted,
  minutes, Result, ok, raise, raise_if, ◌>>=◌, ◌>>◌,
}
use gasu_schedule_bot.Schedule.Lesson.{
  Unicode, Lesson, ScheduleError, nonempty, normalize_text, check_lesson,
}
use gasu_schedule_bot.Schedule.Page.{
  WeekParity, WeeklyLesson, WeeklySchedule, SourceError, Formats, weekday_of, strip,
  parse_public_date, each,
}

-- The four alternatives of `_LESSON_TYPE`.
pub data LessonMark : Type 0 where
  lecture practice laboratory seminar : LessonMark

pub record WeekFormats : Type 0 where
  pub dates : Formats
  -- `_LESSON_TYPE.search(subject)`: the text before the match, and what matched.
  pub type_search : Text → Option (Text × LessonMark)
  pub label : LessonMark → Text
  -- The source id: the hash of the group, the date, the weekday, the slot, the parity, the
  -- subgroup and the occurrence.
  pub source_id : Text → Option ℕ → ℕ → ℕ → WeekParity → Text → ℕ → Text

abbrev pub parity_eq : WeekParity → WeekParity → Bool
parity_eq WeekParity.numerator WeekParity.numerator = true
parity_eq WeekParity.denominator WeekParity.denominator = true
parity_eq _ _ = false

-- `time(hour, minute)`
abbrev pub at_time : ℕ → ℕ → ℕ
at_time hour minute = (hour * 60 + minute) * minutes

-- `DEFAULT_BELL_SCHEDULE`
unfoldable pub bell_schedule : ℕ → Option (ℕ × ℕ)
bell_schedule slot =
    if slot == 1
    then some (at_time 9 0, at_time 10 30)
    else if slot == 2
    then some (at_time 10 45, at_time 12 15)
    else if slot == 3
    then some (at_time 12 30, at_time 14 0)
    else if slot == 4
    then some (at_time 15 0, at_time 16 30)
    else if slot == 5
    then some (at_time 16 45, at_time 18 15)
    else if slot == 6
    then some (at_time 18 30, at_time 20 0)
    else if slot == 7
    then some (at_time 20 15, at_time 21 45)
    else none

-- `_split_lesson_type`
abbrev pub typed : Unicode → WeekFormats → Text → Option (Text × LessonMark) → Text × Option Text
typed u f subject none = (strip u subject, none)
typed u f subject (some (before, mark)) = (strip u before, some (f.label mark))

unfoldable pub split_lesson_type : Unicode → WeekFormats → Text → Text × Option Text
split_lesson_type u f subject = typed u f subject (f.type_search subject)

-- `value.split("/", maxsplit=1)`: the second part is there if a slash is.
abbrev pub before_slash : ℕ → Text × Option Text → Text × Option Text
before_slash c (part, rest) = (c ∷ part, rest)

unfoldable pub split_slash : Text → Text × Option Text
split_slash [] = ([], none)
split_slash (c ∷ t) =
    let later = before_slash c (split_slash t) in if c == 47 then ([], some t) else later

abbrev pub stripped_part : Unicode → Option Text → Option Text
stripped_part u none = none
stripped_part u (some part) = nonempty (some (strip u part))

-- `_split_auditorium`
unfoldable pub split_auditorium : Unicode → Option Text → Option Text × Option Text
split_auditorium u none = (none, none)
split_auditorium u (some []) = (none, none)
split_auditorium u (some (c ∷ t)) =
    let parts = split_slash (c ∷ t) in (stripped_part u (some parts.0), stripped_part u parts.1)

-- `source_day`: none where the template has no date.
abbrev pub dated : Option ℕ → Result SourceError (Option ℕ)
dated none = raise (SourceError.protocol "lesson date is malformed")
dated (some day) = ok (some day)

-- `lesson_day`; none where the loop continues.
abbrev pub lesson_day : ℕ → WeekParity → WeeklyLesson → Option ℕ → Option ℕ
lesson_day monday parity raw (some day) =
    if leb monday day && leb day (monday + 6) then some day else none
lesson_day monday parity raw none =
    if parity_eq raw.parity parity then some (monday + raw.weekday) else none

-- `Lesson(...)`
abbrev pub checked_lesson : Lesson → Result ScheduleError Unit → Result SourceError (List Lesson)
checked_lesson lesson (raise error) = raise (SourceError.bad_lesson error)
checked_lesson lesson (ok _) = ok (lesson ∷ [])

unfoldable pub earlier_lesson : Lesson → Lesson → Bool
earlier_lesson a b =
    is_less
      (compare a.day b.day ⊕ compare a.starts_at b.starts_at ⊕ text_compare a.subject b.subject)

module _ (u : Unicode) (f : WeekFormats) where
  unfoldable pub source_day : Option Text → Result SourceError (Option ℕ)
  source_day none = ok none
  source_day (some []) = ok none
  source_day (some (c ∷ t)) = dated (parse_public_date u f.dates (some (c ∷ t)))

  abbrev pub timed :
      Text → WeeklyLesson → Option ℕ → ℕ → Option (ℕ × ℕ) → Result SourceError (List Lesson)
  timed group_key raw source day none = raise (SourceError.protocol "unknown lesson slot")
  timed group_key raw source day (some (starts_at, ends_at)) =
      let (subject, lesson_type) = split_lesson_type u f raw.subject in
      let (room, building) = split_auditorium u raw.auditorium in
      let lesson : Lesson = record {
        day = day;
        starts_at = starts_at;
        ends_at = ends_at;
        subject = subject;
        lesson_type = lesson_type;
        teacher = raw.professor;
        room = room;
        building = building;
        subgroup = raw.group;
        source_id = some (
            f.source_id group_key source raw.weekday raw.slot raw.parity
              (normalize_text u raw.group) raw.occurrence);
      } in
      checked_lesson lesson (check_lesson u lesson)

  abbrev pub placed : Text → WeeklyLesson → Option ℕ → Option ℕ → Result SourceError (List Lesson)
  placed group_key raw source none = ok []
  placed group_key raw source (some day) = timed group_key raw source day (bell_schedule raw.slot)

  -- The body of the loop over the template.
  unfoldable pub materialize_lesson :
      Text → ℕ → WeekParity → WeeklyLesson → Result SourceError (List Lesson)
  materialize_lesson group_key monday parity raw = do
    source ← source_day raw.source_date
    placed group_key raw source (lesson_day monday parity raw source)

  unfoldable pub materialize_week :
      WeeklySchedule → ℕ → WeekParity → Result SourceError (List Lesson)
  materialize_week schedule monday parity = do
    _ ← raise_if (not (weekday_of monday == 0)) SourceError.not_monday
    lessons ← each (λ _. materialize_lesson schedule.group_key monday parity) 0 schedule.lessons
    ok (sorted earlier_lesson lessons)

abbrev pub numbered_parity : Bool → WeekParity
numbered_parity true = WeekParity.numerator
numbered_parity false = WeekParity.denominator

-- `(a - b) % 2 == 1` of integers; the remainder of a negative number is 0 or 1 too.
abbrev pub odd_difference : ℕ → ℕ → Bool
odd_difference a b = if leb b a then (a - b) % 2 == 1 else (b - a) % 2 == 1

unfoldable pub parity_for_week : ℕ → ℕ → ℕ → Result SourceError WeekParity
parity_for_week current_week_number current_monday target_monday = do
  _ ←
      raise_if (not (weekday_of current_monday == 0) || not (weekday_of target_monday == 0))
        SourceError.not_monday
  _ ←
      raise_if
        (not ((target_monday - current_monday) % 7 == 0)
          || not ((current_monday - target_monday) % 7 == 0))
        SourceError.not_week_offset
  ok (
      numbered_parity (
        odd_difference (current_week_number + (target_monday - current_monday) / 7)
          ((current_monday - target_monday) / 7)))
