-- ===== src/Schedule/Diff/Silence.antt =====
-- When a comparison finds no change.
use mathlib.Core.List.{Perm, append-nil}
use gasu_schedule_bot.Base.{
  ◌≡◌, refl, subst, Bool, true, false, not, List, [], ◌∷◌, ◌++◌, map, arith, Bool-cases, inl, inr,
  Text, text_eq, text_eq_sound, sorted-empty, All, Result, ok, raise_if-eq-ok,
}
use gasu_schedule_bot.Schedule.Lesson.{
  Unicode, Lesson, ScheduleError, ScheduleSnapshot, ScheduleChange, ChangeKind, normalize_text,
  normalize_teacher, normalized_subject,
}
use gasu_schedule_bot.Schedule.Diff.{
  Floats, Entry, Matching, changes_where, comparisons, pair_changes, all_pair_changes,
  cancelled_change, added_change, changes_of, change_before, match_lessons, diff_schedules,
}
use gasu_schedule_bot.Schedule.Diff.Conserved.{
  firsts, seconds_of, lessons_in, match_lessons-IsComplete,
}

-- Two lessons that agree in what a comparison reads: the times, and, up to spaces, case, ё and the
-- dots of initials, the texts but the subgroup. It reads neither the subgroup nor the day.
abbrev pub Alike : Unicode → Lesson → Lesson → Type 0
Alike u old new =
    (old.starts_at ≡ new.starts_at)
    × (old.ends_at ≡ new.ends_at)
    × (normalize_text u old.room ≡ normalize_text u new.room)
    × (normalize_text u old.building ≡ normalize_text u new.building)
    × (normalize_teacher u old.teacher ≡ normalize_teacher u new.teacher)
    × (normalize_text u old.lesson_type ≡ normalize_text u new.lesson_type)
    × (normalized_subject u old ≡ normalized_subject u new)

append-empty {ℓ} : {A : Type ℓ} (xs ys : List A) → xs ++ ys ≡ [] → (xs ≡ []) × (ys ≡ [])
append-empty [] ys h = (refl, h)
append-empty (x ∷ xs) ys h = cc

map-empty {ℓ κ} : {A : Type ℓ} {B : Type κ} (f : A → B) (xs : List A) → map f xs ≡ [] → xs ≡ []
map-empty f [] h = refl
map-empty f (x ∷ xs) h = cc

changes_where-empty :
    (old new : Lesson) (tests : List (Bool × ChangeKind))
    → changes_where old new tests ≡ []
    → All (λ t. t.0 ≡ false) tests
unfolding changes_where
changes_where-empty old new [] h = tt
changes_where-empty old new ((true, kind) ∷ tests) h = cc
changes_where-empty old new ((false, kind) ∷ tests) h = (refl, changes_where-empty old new tests h)

same_text : (s t : Text) → not (text_eq s t) ≡ false → s ≡ t
same_text s t h = elim (Bool-cases (text_eq s t)) [
  | inl e ↦ text_eq_sound s t e
  | inr e ↦ cc (rw e at h)
]

module _ (u : Unicode) where
  pair_changes-Alike : (old new : Lesson) → pair_changes u old new ≡ [] → Alike u old new
  unfolding pair_changes
  pair_changes-Alike old new h =
      let (times, (room, (building, (teacher, (type, (subject, _)))))) =
        changes_where-empty old new (comparisons u old new) h in
      (
        ground (arith, times),
        ground (arith, times),
        same_text _ _ room,
        same_text _ _ building,
        same_text _ _ teacher,
        same_text _ _ type,
        same_text _ _ subject,
      )

  all_pair_changes-Alike :
      (pairs : List (Lesson × Lesson))
      → all_pair_changes u pairs ≡ []
      → All (λ p. Alike u p.0 p.1) pairs
  unfolding all_pair_changes
  all_pair_changes-Alike [] h = tt
  all_pair_changes-Alike ((old, new) ∷ pairs) h =
      let (here, later) = append-empty (pair_changes u old new) (all_pair_changes u pairs) h in
      (pair_changes-Alike old new here, all_pair_changes-Alike pairs later)

-- A matching that pairs all lessons of both schedules with lessons that agree so.
abbrev pub Shows : Unicode → List Lesson → List Lesson → List (Lesson × Lesson) → Type 0
Shows u old new pairs =
    Perm (firsts pairs) old × Perm (seconds_of pairs) new × All (λ p. Alike u p.0 p.1) pairs

matched-Shows :
    (u : Unicode) (old new : List Lesson) (m : Matching)
    → Perm (firsts m.pairs ++ lessons_in m.remaining_old) old
    → Perm (seconds_of m.pairs ++ lessons_in m.remaining_new) new
    → changes_of u m ≡ []
    → Shows u old new m.pairs
unfolding changes_of
matched-Shows u old new m olds news none_found =
    let (paired, left) = append-empty (all_pair_changes u m.pairs) _ none_found in
    let (cancelled, added) = append-empty (map cancelled_change m.remaining_old) _ left in
    (
      alone (firsts m.pairs) m.remaining_old old
          (map-empty cancelled_change m.remaining_old cancelled) olds,
      alone (seconds_of m.pairs) m.remaining_new new (map-empty added_change m.remaining_new added)
          news,
      all_pair_changes-Alike u m.pairs paired,
    )
  where
    alone :
        (done : List Lesson) (entries : List Entry) (lessons : List Lesson)
        → entries ≡ []
        → Perm (done ++ lessons_in entries) lessons
        → Perm done lessons
    alone done entries lessons e h =
        subst (λ xs. Perm xs lessons) (append-nil done)
          (subst (λ es. Perm (done ++ lessons_in es) lessons) e h)

-- A comparison that finds no change pairs every lesson of the one schedule with a lesson of the
-- other, each used once, of the same times and, up to spaces, case, ё and the dots of initials, of
-- the same room, building, teacher, type and subject.
pub no_changes-Shows :
    (u : Unicode) (f : Floats) (previous current : ScheduleSnapshot)
    → diff_schedules u f previous current ≡ ok []
    → (pairs : List (Lesson × Lesson)) × Shows u previous.lessons current.lessons pairs
unfolding diff_schedules
no_changes-Shows u f previous current h =
    let m = match_lessons u f previous.lessons current.lessons in
    let (_, same) = raise_if-eq-ok _ ScheduleError.different_groups _ h in
    let (olds, news) = match_lessons-IsComplete u f previous.lessons current.lessons in
    (
      m.pairs,
      matched-Shows u previous.lessons current.lessons m olds news
          (sorted-empty (change_before u) (changes_of u m) (ok_empty same)),
    )
  where
    ok_empty :
        {xs : List ScheduleChange}
        → ◌≡◌ {A = Result ScheduleError (List ScheduleChange)} (ok xs) (ok [])
        → xs ≡ []
    ok_empty e = cc
