-- ===== src/Schedule/Sync/Once.antt =====
-- A change is stored once for its target snapshot.
use gasu_schedule_bot.Base.{
  ℕ, ◌≡◌, refl, sym, ap, ap₂, ◌∙◌, subst, Bool, true, ◌&&◌, Bool-cases, inl, inr, some, List, [],
  ◌∷◌, ◌++◌, ◌==◌, ==_refl, exists, text_eq, text_eq_refl, ok, >>=-eq-ok, ok_inj, All,
}
use gasu_schedule_bot.Schedule.Lesson.{ScheduleChange}
use gasu_schedule_bot.Schedule.Store.{ChangeRow, Store, Formats, StoredVersion}
use gasu_schedule_bot.Schedule.Sync.Saving.{
  fingerprint, changed_lesson, change_row, is_stored, save_changes, store_changes,
}

exists-append_left :
    {A : Type 0} (test : A → Bool) (xs : List A) (x : A)
    → exists test xs ≡ true
    → exists test (xs ++ x ∷ []) ≡ true
exists-append_left test [] x h = cc
exists-append_left test (y ∷ xs) x h = elim (Bool-cases (test y)) [
  | inl e ↦ rw e refl
  | inr e ↦ rw e (exists-append_left test xs x (rw e at h))
]

exists-append_last :
    {A : Type 0} (test : A → Bool) (xs : List A) (x : A)
    → test x ≡ true
    → exists test (xs ++ x ∷ []) ≡ true
exists-append_last test [] x h = rw h refl
exists-append_last test (y ∷ xs) x h = elim (Bool-cases (test y)) [
  | inl e ↦ rw e refl
  | inr e ↦ rw e (exists-append_last test xs x h)
]

module _ (f : Formats) (previous current : StoredVersion) (detected_at : ℕ) where
  abbrev Stored : List ChangeRow → ScheduleChange → Type 0
  Stored rows change = is_stored current.row.id (fingerprint f change) rows ≡ true

  row-fits :
      (rows : List ChangeRow) (change : ScheduleChange) {row : ChangeRow}
      → change_row f previous current detected_at rows change ≡ ok row
      → (row.to_snapshot_id ≡ current.row.id) × (row.fingerprint ≡ fingerprint f change)
  row-fits rows change h =
      let (before_id, _, h₁) =
        >>=-eq-ok
          (changed_lesson f "missing from previous snapshot" previous.lesson_ids change.before) _
          h in
      let (after_id, _, h₂) =
        >>=-eq-ok (changed_lesson f "missing from current snapshot" current.lesson_ids change.after)
          _ h₁ in
      let same = sym (ok_inj h₂) in (ap (λ r. r.to_snapshot_id) same, ap (λ r. r.fingerprint) same)

  new_row-Stored :
      (rows : List ChangeRow) (change : ScheduleChange) (row : ChangeRow)
      → (row.to_snapshot_id ≡ current.row.id)
      → (row.fingerprint ≡ fingerprint f change)
      → Stored (rows ++ row ∷ []) change
  unfolding is_stored
  new_row-Stored rows change row target print = exists-append_last _ rows row (
      ap₂ (λ i p. i == current.row.id && text_eq p (fingerprint f change)) target print
      ∙ ap₂ ◌&&◌ (==_refl current.row.id) (text_eq_refl (fingerprint f change)))

  append-Stored :
      (rows : List ChangeRow) (row : ChangeRow) (change : ScheduleChange)
      → Stored rows change
      → Stored (rows ++ row ∷ []) change
  unfolding is_stored
  append-Stored rows row change h = exists-append_left _ rows row h

  -- What is stored stays stored, and every change of the list is stored in the end.
  save_changes-Stored :
      (changes : List ScheduleChange) (rows : List ChangeRow)
      {answer : (List ScheduleChange × List ℕ) × List ChangeRow}
      → save_changes f previous current detected_at changes rows ≡ ok answer
      → ((change : ScheduleChange) → Stored rows change → Stored answer.1 change)
        × All (Stored answer.1) changes
  unfolding save_changes
  save_changes-Stored [] rows h =
      let same = ap (λ a. a.1) (ok_inj h) in
      ((λ change stored. subst (λ rs. Stored rs change) same stored), tt)
  save_changes-Stored (change ∷ changes) rows h =
      elim (Bool-cases (is_stored current.row.id (fingerprint f change) rows)) [
        | inl e ↦
            let (kept, all) = save_changes-Stored changes rows (rw e at h) in
            (kept, (kept change e, all))
        | inr e ↦
            let (row, made, h₁) =
              >>=-eq-ok (change_row f previous current detected_at rows change) _ (rw e at h) in
            let (rest, ran, h₂) =
              >>=-eq-ok (save_changes f previous current detected_at changes (rows ++ row ∷ [])) _
                h₁ in
            let (target, print) = row-fits rows change made in
            let (kept, all) = save_changes-Stored changes (rows ++ row ∷ []) ran in
            let same = ap (λ a. a.1) (ok_inj h₂) in
            (
              (λ c stored.
                  subst (λ rs. Stored rs c) same (kept c (append-Stored rows row c stored))),
              subst (λ rs. All (Stored rs) (change ∷ changes)) same
                  (kept change (new_row-Stored rows change row target print), all),
            )
      ]

  Stored-save_changes :
      (changes : List ScheduleChange) (rows : List ChangeRow)
      → All (Stored rows) changes
      → save_changes f previous current detected_at changes rows ≡ ok (([], []), rows)
  unfolding save_changes
  Stored-save_changes [] rows h = refl
  Stored-save_changes (change ∷ changes) rows h = rw h.0 (Stored-save_changes changes rows h.1)

module _ (f : Formats) (previous current : StoredVersion) where
  -- Once the changes between two versions have been stored, storing them again, at any time, reports
  -- no change and leaves the store as it is.
  pub store_changes_twice :
      (changes : List ScheduleChange) (first second : ℕ) (store : Store)
      {answer : (List ScheduleChange × List ℕ) × Store}
      → store_changes f (some previous) current changes first store ≡ ok answer
      → store_changes f (some previous) current changes second answer.1 ≡ ok (([], []), answer.1)
  unfolding store_changes
  store_changes_twice changes first second store h =
      let (saved, ran, h₁) =
        >>=-eq-ok (save_changes f previous current first changes store.changes) _ h in
      let (_, all) = save_changes-Stored f previous current first changes store.changes ran in
      subst (λ s. store_changes f (some previous) current changes second s ≡ ok (([], []), s))
        (ap (λ a. a.1) (ok_inj h₁))
        (rw (Stored-save_changes f previous current second changes saved.1 all) refl)
