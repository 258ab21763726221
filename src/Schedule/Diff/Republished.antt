-- ===== src/Schedule/Diff/Republished.antt =====
-- A schedule that is published again under the same source ids.
use mathlib.Core.List.{append-nil, append_assoc}
use gasu_schedule_bot.Base.{
  ℕ, suc, ◌≡◌, ◌≢◌, refl, sym, ap, ◌∙◌, Bool, false, Option, none, some, List, [], ◌∷◌, ◌++◌, map,
  ==_refl, Bool-cases, inl, inr, Text, text_eq, text_eq_sound, text_eq_refl, sorted, All, ok,
}
use gasu_schedule_bot.Sql.Unique.{Distinct}
use gasu_schedule_bot.Schedule.Lesson.{
  Unicode, Lesson, ScheduleSnapshot, ChangeKind, nonempty, normalize_text, normalize_teacher,
  normalized_subject,
}
use gasu_schedule_bot.Schedule.Diff.{
  Floats, Entry, enumerate, Matching, take_index, pair_up, has_source, index_of_source,
  old_index_of, pair_found, match_sources, candidates, match_candidates, changes_where, comparisons,
  pair_changes, all_pair_changes, changes_of, match_lessons, diff_schedules,
}
use gasu_schedule_bot.Schedule.Diff.Conserved.{firsts, seconds_of}
use gasu_schedule_bot.Schedule.Diff.Silence.{Alike}

-- The source id by which a lesson is matched.
abbrev pub source_of : Lesson → Option Text
source_of lesson = nonempty lesson.source_id

-- Both lessons have the same source id, and agree in what a comparison reads.
abbrev pub Republished : Unicode → Lesson × Lesson → Type 0
Republished u (old, new) =
    ((source : Text) × (source_of old ≡ some source) × (source_of new ≡ some source))
    × Alike u old new

has_source_other :
    (source : Text) (found : Option Text) → some source ≢ found → has_source source found ≡ false
has_source_other source none other = refl
has_source_other source (some t) other = elim (Bool-cases (text_eq t source)) [
  | inl e ↦ absurd (other (ap some (sym (text_eq_sound t source e))))
  | inr e ↦ e
]

index_absent :
    (source : Text) (k : ℕ) (lessons : List Lesson)
    → All (λ s. some source ≢ s) (map source_of lessons)
    → index_of_source source (enumerate k lessons) ≡ none
unfolding index_of_source
index_absent source k [] h = refl
index_absent source k (l ∷ lessons) h =
    rw (index_absent source (suc k) lessons h.1, has_source_other source (source_of l) h.0) refl

index_here :
    (source : Text) (k : ℕ) (l : Lesson) (lessons : List Lesson)
    → source_of l ≡ some source
    → All (λ s. source_of l ≢ s) (map source_of lessons)
    → index_of_source source (enumerate k (l ∷ lessons)) ≡ some k
unfolding index_of_source
index_here source k l lessons here new =
    rw (index_absent source (suc k) lessons (rw here at new), here, text_eq_refl source) refl

index_later :
    (source : Text) (before entries : List Entry) (i : ℕ)
    → index_of_source source entries ≡ some i
    → index_of_source source (before ++ entries) ≡ some i
unfolding index_of_source
index_later source [] entries i h = h
index_later source (b ∷ before) entries i h = rw (index_later source before entries i h) refl

abbrev at_index : ℕ → List (Lesson × Lesson) → List (Lesson × Lesson) → Matching
at_index k done rest = record {
  pairs = done;
  remaining_old = enumerate k (firsts rest);
  remaining_new = enumerate k (seconds_of rest);
}

pair_up-next :
    (k : ℕ) (done : List (Lesson × Lesson)) (p : Lesson × Lesson) (rest : List (Lesson × Lesson))
    → pair_up k k (at_index k done (p ∷ rest)) ≡ at_index (suc k) (done ++ p ∷ []) rest
unfolding pair_up take_index
pair_up-next k done p rest = rw (==_refl k) refl

module _ (u : Unicode) (olds : List Entry) where
  match_sources_whole :
      (before : List Entry) (k : ℕ) (done rest : List (Lesson × Lesson))
      → olds ≡ before ++ enumerate k (firsts rest)
      → All (Republished u) rest
      → Distinct (map source_of (firsts rest))
      → match_sources olds (enumerate k (seconds_of rest)) (at_index k done rest)
        ≡ record { pairs = done ++ rest; remaining_old = []; remaining_new = [] }
  unfolding match_sources
  match_sources_whole before k done [] split h d =
      ap (λ ps. record { pairs = ps; remaining_old = []; remaining_new = [] })
        (sym (append-nil done))
  match_sources_whole before k done (p ∷ rest) split h d =
      let ((source, old_source, new_source), _) = h.0 in
      let found : old_index_of olds (source_of p.1) ≡ some k =
        rw (new_source, split)
          (index_later source before (enumerate k (firsts (p ∷ rest))) k
            (index_here source k p.0 (firsts rest) old_source d.0)) in
      let next =
        match_sources_whole (before ++ (k, p.0) ∷ []) (suc k) (done ++ p ∷ []) rest
          (split ∙ sym (append_assoc before ((k, p.0) ∷ []) (enumerate (suc k) (firsts rest)))) h.1
          d.1 in
      ap
        (λ i.
          match_sources olds (enumerate (suc k) (seconds_of rest))
            (pair_found i k (at_index k done (p ∷ rest))))
        found
      ∙ ap (match_sources olds (enumerate (suc k) (seconds_of rest))) (pair_up-next k done p rest)
      ∙ next
      ∙ ap (λ ps. record { pairs = ps; remaining_old = []; remaining_new = [] })
          (append_assoc done (p ∷ []) rest)

module _ (u : Unicode) where
  comparisons-Alike :
      (old new : Lesson) → Alike u old new → All (λ t. t.0 ≡ false) (comparisons u old new)
  comparisons-Alike old new (starts, ends, room, building, teacher, type, subject) = (
    rw (starts, ends, ==_refl new.starts_at, ==_refl new.ends_at) refl,
    (
      rw (room, text_eq_refl (normalize_text u new.room)) refl,
      (
        rw (building, text_eq_refl (normalize_text u new.building)) refl,
        (
          rw (teacher, text_eq_refl (normalize_teacher u new.teacher)) refl,
          (
            rw (type, text_eq_refl (normalize_text u new.lesson_type)) refl,
            (rw (subject, text_eq_refl (normalized_subject u new)) refl, tt),
          ),
        ),
      ),
    ),
  )

  changes_where-none :
      (old new : Lesson) (tests : List (Bool × ChangeKind))
      → All (λ t. t.0 ≡ false) tests
      → changes_where old new tests ≡ []
  unfolding changes_where
  changes_where-none old new [] h = refl
  changes_where-none old new (t ∷ tests) h = rw h.0 (changes_where-none old new tests h.1)

  all_pair_changes-none :
      (pairs : List (Lesson × Lesson)) → All (Republished u) pairs → all_pair_changes u pairs ≡ []
  unfolding all_pair_changes pair_changes
  all_pair_changes-none [] h = refl
  all_pair_changes-none ((old, new) ∷ pairs) h =
      rw (changes_where-none old new (comparisons u old new) (comparisons-Alike old new h.0.1))
        (all_pair_changes-none pairs h.1)

  match_lessons_whole :
      (f : Floats) (pairs : List (Lesson × Lesson))
      → All (Republished u) pairs
      → Distinct (map source_of (firsts pairs))
      → match_lessons u f (firsts pairs) (seconds_of pairs)
        ≡ record { pairs = pairs; remaining_old = []; remaining_new = [] }
  unfolding match_lessons candidates sorted match_candidates
  match_lessons_whole f pairs h d =
      rw (match_sources_whole u (enumerate 0 (firsts pairs)) [] 0 [] pairs refl h d) refl

-- A group's schedule whose lessons come back in their order under their old, pairwise distinct
-- source ids, with the same times and, up to spaces, case, ё and the dots of initials, the same
-- rooms, buildings, teachers, types and subjects, has no changes, whatever becomes of the days and
-- the subgroups.
pub Republished-no_changes :
    (u : Unicode) (f : Floats) (previous current : ScheduleSnapshot)
    (pairs : List (Lesson × Lesson))
    → previous.group_key ≡ current.group_key
    → previous.lessons ≡ firsts pairs
    → current.lessons ≡ seconds_of pairs
    → All (Republished u) pairs
    → Distinct (map source_of (firsts pairs))
    → diff_schedules u f previous current ≡ ok []
unfolding diff_schedules changes_of sorted
Republished-no_changes u f previous current pairs group old new h d =
    let whole : match_lessons u f previous.lessons current.lessons
        ≡ record { pairs = pairs; remaining_old = []; remaining_new = [] } =
      rw (old, new) (match_lessons_whole u f pairs h d) in
    rw (whole, group, text_eq_refl current.group_key, all_pair_changes-none u pairs h) refl
