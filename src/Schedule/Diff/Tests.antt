-- ===== src/Schedule/Diff/Tests.antt =====
-- Comparisons of concrete schedules.
use gasu_schedule_bot.Base.{
  ℕ, ◌*◌, ◌+◌, compare, ◌≡◌, ◌≢◌, refl, none, some, List, [], ◌∷◌, ◌==◌, if◌then◌else◌, Text,
  text_eq, All, ok, sorted, insert, text_compare,
}
use gasu_schedule_bot.Schedule.Lesson.{
  Unicode, Lesson, ScheduleSnapshot, ChangeKind, normalize_text, normalize_teacher, spaced, lstrip,
  rstrip, folded, without,
}
use gasu_schedule_bot.Schedule.Diff.{
  Floats, match_lessons, diff_schedules, take_index, pair_up, index_of_source, match_sources,
  match_score, candidates_with, candidates, better, match_candidates, changes_where, pair_changes,
  all_pair_changes, changes_of, change_before,
}
use gasu_schedule_bot.Schedule.Diff.Conserved.{IsComplete, match_lessons-IsComplete}
use gasu_schedule_bot.Schedule.Diff.Changes.{IsValid, diff-IsValid}
use gasu_schedule_bot.Schedule.Diff.Silence.{Shows, no_changes-Shows}
use gasu_schedule_bot.Schedule.Diff.Republished.{Republished, source_of, Republished-no_changes}

abbrev pub ascii : Unicode
ascii = record { is_space = λ c. c == 32; casefold = λ c. c ∷ [] }

abbrev pub whole_numbers : Floats
whole_numbers = record {
  Float = ℕ;
  of_nat = λ n. n;
  plus = ◌+◌;
  times = ◌*◌;
  compared = compare;
  ratio = λ a b. if text_eq a b then 1 else 0;
}

abbrev pub lesson : Text → Text → Text → Lesson
lesson source subject teacher = record {
  day = 7;
  starts_at = 100;
  ends_at = 200;
  subject = subject;
  lesson_type = none;
  teacher = some teacher;
  room = none;
  building = none;
  subgroup = none;
  source_id = some source;
}

-- "ab", and "a. b." with a space and dots, for another subgroup.
abbrev pub algebra : Lesson
algebra = lesson (1 ∷ []) (97 ∷ []) (97 ∷ 98 ∷ [])

abbrev pub algebra_again : Lesson
algebra_again = record (lesson (1 ∷ []) (32 ∷ 97 ∷ 32 ∷ []) (97 ∷ 46 ∷ 32 ∷ 98 ∷ 46 ∷ [])) {
  subgroup = some (50 ∷ []);
}

abbrev pub physics : Lesson
physics = lesson (2 ∷ []) (98 ∷ []) []

abbrev pub snapshot : List Lesson → ScheduleSnapshot
snapshot lessons = record { source = []; group_key = 103 ∷ []; fetched_at = 5; lessons = lessons }

abbrev pairs : List (Lesson × Lesson)
pairs = (algebra, algebra_again) ∷ (physics, physics) ∷ []

same_teacher :
    normalize_teacher ascii algebra.teacher ≡ normalize_teacher ascii algebra_again.teacher
unfolding normalize_teacher normalize_text spaced lstrip rstrip folded without
same_teacher = refl

pairs-Republished : All (Republished ascii) pairs
unfolding normalize_teacher normalize_text spaced lstrip rstrip folded without
pairs-Republished = (
  ((1 ∷ [], refl, refl), (refl, refl, refl, refl, refl, refl, refl)),
  (((2 ∷ [], refl, refl), (refl, refl, refl, refl, refl, refl, refl)), tt),
)

one_is_not_two : source_of algebra ≢ source_of physics
one_is_not_two e = cc

Republished-no_changes_example :
    diff_schedules ascii whole_numbers
      (snapshot (algebra ∷ physics ∷ []))
      (snapshot (algebra_again ∷ physics ∷ []))
    ≡ ok []
Republished-no_changes_example =
    Republished-no_changes ascii whole_numbers (snapshot (algebra ∷ physics ∷ []))
      (snapshot (algebra_again ∷ physics ∷ [])) pairs refl refl refl pairs-Republished
      ((one_is_not_two, tt), (tt, tt))

no_changes-Shows_example :
    (ps : List (Lesson × Lesson)) × Shows ascii
      (algebra ∷ physics ∷ [])
      (algebra_again ∷ physics ∷ [])
      ps
no_changes-Shows_example =
    no_changes-Shows ascii whole_numbers (snapshot (algebra ∷ physics ∷ []))
      (snapshot (algebra_again ∷ physics ∷ [])) Republished-no_changes_example

-- A lesson that disappears and one that appears.
replaced :
    diff_schedules ascii whole_numbers (snapshot (algebra ∷ [])) (snapshot (physics ∷ []))
    ≡ ok (
        record { kind = ChangeKind.cancelled; before = some algebra; after = none }
        ∷ record { kind = ChangeKind.added; before = none; after = some physics }
        ∷ [])
unfolding diff_schedules match_lessons take_index pair_up index_of_source match_sources match_score
    candidates_with candidates better match_candidates changes_where pair_changes all_pair_changes
    changes_of change_before sorted insert text_compare normalize_text spaced lstrip rstrip folded
    without
replaced = refl

diff-IsValid_example : All IsValid (
    record { kind = ChangeKind.cancelled; before = some algebra; after = none }
    ∷ record { kind = ChangeKind.added; before = none; after = some physics }
    ∷ [])
diff-IsValid_example =
    diff-IsValid ascii whole_numbers (snapshot (algebra ∷ [])) (snapshot (physics ∷ [])) replaced

match_lessons-IsComplete_example :
    IsComplete
      (algebra ∷ physics ∷ [])
      (algebra_again ∷ [])
      (match_lessons ascii whole_numbers (algebra ∷ physics ∷ []) (algebra_again ∷ []))
match_lessons-IsComplete_example =
    match_lessons-IsComplete ascii whole_numbers (algebra ∷ physics ∷ []) (algebra_again ∷ [])
