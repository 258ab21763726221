-- ===== src/Schedule/Diff/Changes.antt =====
-- What a list of changes says: every change is well formed.
use gasu_schedule_bot.Base.{
  ◌≡◌, refl, subst, Bool, true, false, some, List, [], ◌∷◌, map, sorted-All, All, All-append,
  Result, ok, raise_if-eq-ok,
}
use gasu_schedule_bot.Schedule.Lesson.{
  Unicode, Lesson, ScheduleError, ScheduleSnapshot, ScheduleChange, ChangeKind, check_change,
}
use gasu_schedule_bot.Schedule.Diff.{
  Floats, Entry, Matching, changes_where, comparisons, pair_changes, all_pair_changes,
  cancelled_change, added_change, changes_of, change_before, diff_schedules,
}

abbrev pub IsValid : ScheduleChange → Type 0
IsValid change = check_change change ≡ ok tt

-- A kind of change that has both lessons.
abbrev Replaces : ChangeKind → Type 0
Replaces kind =
    (old new : Lesson) → IsValid (record { kind = kind; before = some old; after = some new })

module _ (u : Unicode) where
  changes_where-All :
      (old new : Lesson) (tests : List (Bool × ChangeKind))
      → All (λ t. Replaces t.1) tests
      → All IsValid (changes_where old new tests)
  unfolding changes_where
  changes_where-All old new [] h = tt
  changes_where-All old new ((true, kind) ∷ tests) h =
      (h.0 old new, changes_where-All old new tests h.1)
  changes_where-All old new ((false, kind) ∷ tests) h = changes_where-All old new tests h.1

  pair_changes-All : (old new : Lesson) → All IsValid (pair_changes u old new)
  unfolding pair_changes check_change
  pair_changes-All old new = changes_where-All old new (comparisons u old new) (
    (λ _ _. refl),
    ((λ _ _. refl), ((λ _ _. refl), ((λ _ _. refl), ((λ _ _. refl), ((λ _ _. refl), tt))))),
  )

  all_pair_changes-All : (pairs : List (Lesson × Lesson)) → All IsValid (all_pair_changes u pairs)
  unfolding all_pair_changes
  all_pair_changes-All [] = tt
  all_pair_changes-All ((old, new) ∷ pairs) =
      All-append IsValid (pair_changes u old new) _ (pair_changes-All old new)
        (all_pair_changes-All pairs)

  All-mapped :
      (f : Entry → ScheduleChange)
      → ((e : Entry) → IsValid (f e))
      → (es : List Entry) → All IsValid (map f es)
  All-mapped f valid [] = tt
  All-mapped f valid (e ∷ es) = (valid e, All-mapped f valid es)

  changes_of-All : (m : Matching) → All IsValid (changes_of u m)
  unfolding changes_of check_change
  changes_of-All m =
      All-append IsValid (all_pair_changes u m.pairs) _ (all_pair_changes-All m.pairs) (
        All-append IsValid (map (cancelled_change) m.remaining_old) _
          (All-mapped (cancelled_change) (λ e. refl) m.remaining_old)
          (All-mapped (added_change) (λ e. refl) m.remaining_new))

-- Every change of a comparison that returns satisfies the check of its constructor, so that no
-- change of the comparison raises.
pub diff-IsValid :
    (u : Unicode) (f : Floats) (previous current : ScheduleSnapshot) {changes : List ScheduleChange}
    → diff_schedules u f previous current ≡ ok changes
    → All IsValid changes
unfolding diff_schedules
diff-IsValid u f previous current h =
    let (_, same) = raise_if-eq-ok _ ScheduleError.different_groups _ h in
    subst (All IsValid) (ok_same same) (sorted-All (change_before u) IsValid _ (changes_of-All u _))
  where
    ok_same :
        {xs ys : List ScheduleChange}
        → ◌≡◌ {A = Result ScheduleError (List ScheduleChange)} (ok xs) (ok ys)
        → xs ≡ ys
    ok_same e = cc
