-- ===== src/Schedule/Diff.antt =====
-- `diff_schedules` of src/szs_hub/domain/schedule.py: lessons are matched by their source id, then
-- greedily by score, and every difference that a reader would see is one change. Floating-point
-- numbers and `SequenceMatcher` are parameters.
pub mod Conserved
pub mod Changes
pub mod Silence
pub mod Republished
mod Tests
use gasu_schedule_bot.Base.{
  ℕ, ◌+◌, ◌-◌, suc, Ordering, Bool, true, false, ◌&&◌, ◌||◌, not, Option, none, some, List, [], ◌∷◌,
  ◌++◌, map, compare, ◌==◌, if◌then◌else◌, Text, text_eq, text_compare, ◌⊕◌, is_less, sorted,
  Result, ok, raise, raise_if, ◌>>◌, String,
}
use gasu_schedule_bot.Schedule.Lesson.{
  Unicode, Lesson, ScheduleError, ScheduleSnapshot, ScheduleChange, ChangeKind, nonempty,
  normalize_text, normalize_teacher, normalized_subject, kind_rank, time_minutes,
}

-- Python's `float` and `SequenceMatcher(None, a, b).ratio()`.
pub record Floats : Type 1 where
  pub Float : Type 0
  pub of_nat : ℕ → Float
  pub plus : Float → Float → Float
  pub times : Float → Float → Float
  pub compared : Float → Float → Ordering
  pub ratio : Text → Text → Float

-- A lesson with its index in the schedule; the sets of remaining indices are lists of these.
abbrev pub Entry : Type 0
Entry = ℕ × Lesson

abbrev pub enumerate : ℕ → List Lesson → List Entry
enumerate i [] = []
enumerate i (lesson ∷ lessons) = (i, lesson) ∷ enumerate (suc i) lessons

pub record Matching : Type 0 where
  pub pairs : List (Lesson × Lesson)
  pub remaining_old : List Entry
  pub remaining_new : List Entry

-- The lesson of a remaining index, and what remains without it.
abbrev pub put_back : Entry → Option (Lesson × List Entry) → Option (Lesson × List Entry)
put_back entry none = none
put_back entry (some (lesson, rest)) = some (lesson, entry ∷ rest)

unfoldable pub take_index : ℕ → List Entry → Option (Lesson × List Entry)
take_index index [] = none
take_index index (entry ∷ entries) =
    let later = put_back entry (take_index index entries) in
    if entry.0 == index then some (entry.1, entries) else later

abbrev pub paired :
    Matching → Option (Lesson × List Entry) → Option (Lesson × List Entry) → Matching
paired matching none _ = matching
paired matching (some _) none = matching
paired matching (some (old, olds)) (some (new, news)) = record {
  pairs = matching.pairs ++ (old, new) ∷ [];
  remaining_old = olds;
  remaining_new = news;
}

-- A pair is formed if both of its lessons remain.
unfoldable pub pair_up : ℕ → ℕ → Matching → Matching
pair_up old_index new_index matching =
    paired matching (take_index old_index matching.remaining_old)
      (take_index new_index matching.remaining_new)

abbrev pub has_source : Text → Option Text → Bool
has_source source none = false
has_source source (some t) = text_eq t source

abbrev pub later_or : ℕ → Bool → Option ℕ → Option ℕ
later_or index here (some later) = some later
later_or index true none = some index
later_or index false none = none

-- `old_by_source.get`: of equal source ids the last entry is kept.
unfoldable pub index_of_source : Text → List Entry → Option ℕ
index_of_source source [] = none
index_of_source source (entry ∷ entries) =
    later_or entry.0 (has_source source (nonempty entry.1.source_id))
      (index_of_source source entries)

abbrev pub old_index_of : List Entry → Option Text → Option ℕ
old_index_of olds none = none
old_index_of olds (some source) = index_of_source source olds

abbrev pub pair_found : Option ℕ → ℕ → Matching → Matching
pair_found none new_index matching = matching
pair_found (some old_index) new_index matching = pair_up old_index new_index matching

-- The first loop: over the new lessons in their order.
unfoldable pub match_sources : List Entry → List Entry → Matching → Matching
match_sources olds [] matching = matching
match_sources olds (new ∷ news) matching =
    match_sources olds news
      (pair_found (old_index_of olds (nonempty new.1.source_id)) new.0 matching)

module _ (u : Unicode) (f : Floats) where
  abbrev pub bonus : Bool → ℕ → f.Float → f.Float
  bonus equal points score = if equal then f.plus score (f.of_nat points) else score

  -- `_match_score`; none is minus infinity.
  unfoldable pub match_score : Lesson → Lesson → Option f.Float
  match_score old new =
      let subject_ratio = f.ratio (normalized_subject u old) (normalized_subject u new) in
      if not (old.day == new.day)
      then none
      else some (
          bonus (text_eq (normalize_text u old.lesson_type) (normalize_text u new.lesson_type)) 5 (
            bonus (text_eq (normalize_text u old.subgroup) (normalize_text u new.subgroup)) 5 (
              bonus (old.starts_at == new.starts_at) 15 (
                bonus (text_eq (normalized_subject u old) (normalized_subject u new)) 25
                  (f.times subject_ratio (f.of_nat 70))))))

  pub record Candidate : Type 0 where
    pub score : f.Float
    pub gap : ℕ
    pub old_index : ℕ
    pub new_index : ℕ

  abbrev pub candidate_of : Entry → Entry → Option f.Float → List Candidate → List Candidate
  candidate_of old new none rest = rest
  candidate_of old new (some score) rest =
      if is_less (f.compared score (f.of_nat 70))
      then rest
      else record {
        score = score;
        gap =
            (time_minutes old.1.starts_at - time_minutes new.1.starts_at)
            + (time_minutes new.1.starts_at - time_minutes old.1.starts_at);
        old_index = old.0;
        new_index = new.0;
      }
        ∷ rest

  unfoldable pub candidates_with : Entry → List Entry → List Candidate
  candidates_with old [] = []
  candidates_with old (new ∷ news) =
      candidate_of old new (match_score old.1 new.1) (candidates_with old news)

  unfoldable pub candidates : List Entry → List Entry → List Candidate
  candidates [] news = []
  candidates (old ∷ olds) news = candidates_with old news ++ candidates olds news

  -- `sorted(candidates, reverse=True)`: the greatest score, the least gap, the greatest indices.
  unfoldable pub better : Candidate → Candidate → Bool
  better c d = is_less (
      f.compared d.score c.score
      ⊕ compare c.gap d.gap
      ⊕ compare d.old_index c.old_index
      ⊕ compare d.new_index c.new_index)

  unfoldable pub match_candidates : List Candidate → Matching → Matching
  match_candidates [] matching = matching
  match_candidates (c ∷ cs) matching =
      match_candidates cs (pair_up c.old_index c.new_index matching)

  -- `_match_lessons`
  unfoldable pub match_lessons : List Lesson → List Lesson → Matching
  match_lessons old_lessons new_lessons =
      let olds = enumerate 0 old_lessons in
      let news = enumerate 0 new_lessons in
      let by_source =
        match_sources olds news
          (record { pairs = []; remaining_old = olds; remaining_new = news }) in
      match_candidates (sorted better (candidates by_source.remaining_old by_source.remaining_new))
        by_source

-- The changes whose `if` holds, in the order of the statements.
unfoldable pub changes_where : Lesson → Lesson → List (Bool × ChangeKind) → List ScheduleChange
changes_where old new [] = []
changes_where old new ((differ, kind) ∷ tests) =
    let rest = changes_where old new tests in
    if differ then record { kind = kind; before = some old; after = some new } ∷ rest else rest

abbrev pub times_differ : Lesson → Lesson → Bool
times_differ old new = not (old.starts_at == new.starts_at) || not (old.ends_at == new.ends_at)

abbrev pub cancelled_change : Entry → ScheduleChange
cancelled_change entry = record { kind = ChangeKind.cancelled; before = some entry.1; after = none }

abbrev pub added_change : Entry → ScheduleChange
added_change entry = record { kind = ChangeKind.added; before = none; after = some entry.1 }

abbrev pub lesson_of : Option Lesson → Option Lesson → Option Lesson
lesson_of (some after) before = some after
lesson_of none before = before

module _ (u : Unicode) where
  abbrev pub texts_differ : Option Text → Option Text → Bool
  texts_differ old new = not (text_eq (normalize_text u old) (normalize_text u new))

  abbrev pub teachers_differ : Lesson → Lesson → Bool
  teachers_differ old new =
      not (text_eq (normalize_teacher u old.teacher) (normalize_teacher u new.teacher))

  abbrev pub subjects_differ : Lesson → Lesson → Bool
  subjects_differ old new = not (text_eq (normalized_subject u old) (normalized_subject u new))

  abbrev pub comparisons : Lesson → Lesson → List (Bool × ChangeKind)
  comparisons old new =
      (times_differ old new, ChangeKind.time)
      ∷ (texts_differ old.room new.room, ChangeKind.room)
      ∷ (texts_differ old.building new.building, ChangeKind.building)
      ∷ (teachers_differ old new, ChangeKind.teacher)
      ∷ (texts_differ old.lesson_type new.lesson_type, ChangeKind.lesson_type)
      ∷ (subjects_differ old new, ChangeKind.subject)
      ∷ []

  -- The changes of one pair.
  unfoldable pub pair_changes : Lesson → Lesson → List ScheduleChange
  pair_changes old new = changes_where old new (comparisons old new)

  unfoldable pub all_pair_changes : List (Lesson × Lesson) → List ScheduleChange
  all_pair_changes [] = []
  all_pair_changes ((old, new) ∷ pairs) = pair_changes old new ++ all_pair_changes pairs

  unfoldable pub changes_of : Matching → List ScheduleChange
  changes_of matching =
      all_pair_changes matching.pairs
      ++ (map cancelled_change matching.remaining_old ++ map added_change matching.remaining_new)

  abbrev pub lessons_before : ChangeKind → ChangeKind → Option Lesson → Option Lesson → Bool
  lessons_before kind kind' (some a) (some b) = is_less (
      compare a.day b.day
      ⊕ compare a.starts_at b.starts_at
      ⊕ text_compare (normalized_subject u a) (normalized_subject u b)
      ⊕ compare (kind_rank kind) (kind_rank kind'))
  lessons_before kind kind' _ _ = false

  -- `_change_sort_key`, compared; a change has a lesson.
  unfoldable pub change_before : ScheduleChange → ScheduleChange → Bool
  change_before c d =
      lessons_before c.kind d.kind (lesson_of c.after c.before) (lesson_of d.after d.before)

unfoldable pub diff_schedules :
    Unicode
    → Floats
    → ScheduleSnapshot
    → ScheduleSnapshot
    → Result ScheduleError (List ScheduleChange)
diff_schedules u f previous current =
    raise_if (not (text_eq previous.group_key current.group_key)) ScheduleError.different_groups
    >> ok (
        sorted (change_before u)
          (changes_of u (match_lessons u f previous.lessons current.lessons)))
