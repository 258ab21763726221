-- ===== src/Schedule/Sync/Stored.antt =====
-- The snapshot that a synchronization stores, or finds stored, is in the table and is complete, and
-- the next load reads it.
use gasu_schedule_bot.Base.{
  ℕ, ◌≡◌, ◌≢◌, refl, sym, ap, ◌∙◌, subst, Bool, true, false, not, Bool-cases, &&-eq-true, inl, inr,
  Option, none, some, List, [], ◌∷◌, ◌++◌, map, arith, ◌==◌, ==_refl, Text, text_eq, text_eq_refl,
  Result, ok, raise, ◌>>=◌, >>=-eq-ok, raise_if-eq-ok, ok_inj, All,
}
use gasu_schedule_bot.Sql.Unique.{Distinct}
use gasu_schedule_bot.Attendance.Service.{first_where}
use gasu_schedule_bot.Schedule.Diff.{Floats}
use gasu_schedule_bot.Schedule.Lesson.{Lesson, ScheduleSnapshot, ScheduleChange}
use gasu_schedule_bot.Schedule.Page.{WeekParity}
use gasu_schedule_bot.Schedule.Week.{WeekFormats}
use gasu_schedule_bot.Schedule.Store.{
  SyncError, SnapshotRow, Store, Formats, snapshot_key, spbgasu, StoredVersion,
}
use gasu_schedule_bot.Schedule.Store.Loading.{
  load_version, find_snapshot, is_of_week, load_confirmation,
}
use gasu_schedule_bot.Schedule.Sync.{
  SyncResult, freshness_of, served, confirm, write_marker, latest_confirmed,
}
use gasu_schedule_bot.Schedule.Sync.Rows.{some_inj, Distinct-found}
use gasu_schedule_bot.Schedule.Sync.Loaded.{loaded_row}
use gasu_schedule_bot.Schedule.Sync.Confirmed.{confirmed_now, load-confirm}
use gasu_schedule_bot.Schedule.Sync.Saving.{
  same_content, stored_or_new, store_snapshot, insert_lessons, save_changes, store_changes,
}
use gasu_schedule_bot.Schedule.Sync.Saving.Call.{compared, sync_answered}

first_where-All :
    {R : Type 0} (P : R → Type 0) (test : R → Bool) (rows : List R) {r : R}
    → All P rows
    → first_where test rows ≡ some r
    → P r × (test r ≡ true)
unfolding first_where
first_where-All P test [] h e = cc
first_where-All P test (x ∷ rows) h e = elim (Bool-cases (test x)) [
  | inl b ↦ let same = some_inj (rw b at e) in subst (λ y. P y × (test y ≡ true)) same (h.0, b)
  | inr b ↦ first_where-All P test rows h.1 (rw b at e)
]

find-append_new :
    (row : SnapshotRow) (rows : List SnapshotRow)
    → All (λ r. r.id ≢ row.id) rows
    → find_snapshot row.id (rows ++ row ∷ []) ≡ some row
unfolding find_snapshot
find-append_new row [] h = rw (==_refl row.id) refl
find-append_new row (r ∷ rows) h =
    let apart : (r.id == row.id) ≡ false = ground (arith, h.0) in
    rw apart (find-append_new row rows h.1)

module _ (f : Formats) (group_key : Text) (week_start : ℕ) where
  -- The row of the version is in the table, complete and of the week.
  abbrev InTable : StoredVersion → Store → Type 0
  InTable version store =
      (find_snapshot version.row.id store.snapshots ≡ some version.row)
      × (is_of_week f spbgasu group_key week_start version.row ≡ true)

  week_row :
      (row : SnapshotRow)
      → row.is_complete ≡ true
      → text_eq row.source spbgasu ≡ true
      → text_eq row.group_key group_key ≡ true
      → (row.week_start == week_start) ≡ true
      → is_of_week f spbgasu group_key week_start row ≡ true
  unfolding is_of_week
  week_row row complete source group week = rw (complete, source, group, week) refl

  usable_row :
      (snapshot : ScheduleSnapshot) (row : SnapshotRow)
      → snapshot.source ≡ spbgasu
      → snapshot.group_key ≡ group_key
      → row.is_complete ≡ true
      → same_content f snapshot week_start row ≡ true
      → is_of_week f spbgasu group_key week_start row ≡ true
  unfolding same_content
  usable_row snapshot row source group complete same =
      let (of_source, rest) = &&-eq-true (text_eq row.source snapshot.source) _ same in
      let (of_group, rest') = &&-eq-true (text_eq row.group_key snapshot.group_key) _ rest in
      let (of_week, _) = &&-eq-true (row.week_start == week_start) _ rest' in
      week_row row complete (ap (text_eq row.source) (sym source) ∙ of_source)
        (ap (text_eq row.group_key) (sym group) ∙ of_group) of_week

  stored-InTable :
      (snapshot : ScheduleSnapshot) (parity : WeekParity) (store : Store)
      (found : Option SnapshotRow) {answer : (StoredVersion × Bool) × Store}
      → snapshot.source ≡ spbgasu
      → snapshot.group_key ≡ group_key
      → Distinct (map snapshot_key store.snapshots)
      → first_where (same_content f snapshot week_start) store.snapshots ≡ found
      → stored_or_new f snapshot week_start parity store found ≡ ok answer
      → InTable answer.0.0 answer.1
  stored-InTable snapshot parity store (some row) source group distinct found h =
      let (complete, h₁) = raise_if-eq-ok (not row.is_complete) _ _ h in
      let (version, read, h₂) = >>=-eq-ok (load_version f store row) _ h₁ in
      let (listed, same) =
        first_where-All (λ r. find_snapshot r.id store.snapshots ≡ some r)
          (same_content f snapshot week_start) store.snapshots
          (Distinct-found store.snapshots distinct) found in
      let usable = usable_row snapshot row source group (ground (arith, complete)) same in
      let is_row = loaded_row f spbgasu group_key week_start store row read in
      subst (λ a. InTable a.0.0 a.1) (ok_inj h₂)
        (
          ap (λ r. find_snapshot r.id store.snapshots) is_row ∙ listed ∙ ap some (sym is_row),
          ap (is_of_week f spbgasu group_key week_start) is_row ∙ usable,
        )
  stored-InTable snapshot parity store none source group distinct found h =
      let (inserted, ran, h₁) = >>=-eq-ok (insert_lessons f _ _ _ _) _ h in
      subst (λ a. InTable a.0.0 a.1) (ok_inj h₁)
        (
          find-append_new _ store.snapshots (f.snapshot_ids.next_is_new store.snapshots),
          week_row _ refl (ap (λ t. text_eq t spbgasu) source)
              (ap (λ t. text_eq t group_key) group ∙ text_eq_refl group_key) (==_refl week_start),
        )

  store_changes-snapshots :
      (previous : Option StoredVersion) (current : StoredVersion) (changes : List ScheduleChange)
      (detected_at : ℕ) (store : Store) {answer : (List ScheduleChange × List ℕ) × Store}
      → store_changes f previous current changes detected_at store ≡ ok answer
      → store.snapshots ≡ answer.1.snapshots
  unfolding store_changes
  store_changes-snapshots none current changes detected_at store h =
      ap (λ a. a.1.snapshots) (ok_inj h)
  store_changes-snapshots (some previous) current changes detected_at store h =
      let (_, _, h₁) =
        >>=-eq-ok (save_changes f previous current detected_at changes store.changes) _ h in
      ap (λ a. a.1.snapshots) (ok_inj h₁)

  serves :
      (fresh_for later checked_at : ℕ) (parity : WeekParity) (read : Result SyncError StoredVersion)
      → ((read >>= λ v. ok (confirmed_now f group_key week_start checked_at parity v)) >>= λ c. ok (
          served week_start c.parity
            (freshness_of fresh_for later c.confirmed_at c.failure c.last_attempt_failed)
            c.version))
        ≡ (read >>= λ v. ok (
            served week_start
              (some parity)
              (freshness_of fresh_for later (some checked_at) none false)
              (some v)))
  serves fresh_for later checked_at parity (raise e) = refl
  serves fresh_for later checked_at parity (ok v) = refl

  -- The next load, of a version that is in the table and has been confirmed.
  latest-confirm :
      (fresh_for later checked_at : ℕ) (parity : WeekParity) (version : StoredVersion)
      (store : Store)
      → InTable version store
      → latest_confirmed f group_key week_start fresh_for later
          (confirm f group_key week_start checked_at parity version store)
        ≡ (load_version f store version.row >>= λ v. ok (
            served week_start
              (some parity)
              (freshness_of fresh_for later (some checked_at) none false)
              (some v)))
  unfolding latest_confirmed
  latest-confirm fresh_for later checked_at parity version store (stored, usable) =
      ap
        (λ x. x >>= λ c. ok (
          served week_start c.parity
            (freshness_of fresh_for later c.confirmed_at c.failure c.last_attempt_failed)
            c.version))
        (load-confirm f group_key week_start store checked_at parity version stored usable)
      ∙ serves fresh_for later checked_at parity (load_version f store version.row)

module _ (f : Formats) (wf : WeekFormats) (floats : Floats) (fresh_for : ℕ) (retain : Bool)
    (group_key : Text) (week_start : ℕ) where
  -- The answer serves the version, its row is in the table, and the next load reads it.
  abbrev pub Serves : StoredVersion → WeekParity → ℕ → ℕ → SyncResult × Store → Type 0
  Serves version parity checked_at later answer =
      (answer.0.schedule
        ≡ served week_start (some parity)
            (freshness_of fresh_for checked_at (some checked_at) none false) (some version))
      × (find_snapshot version.row.id answer.1.snapshots ≡ some version.row)
      × (latest_confirmed f group_key week_start fresh_for later answer.1 ≡ (
          load_version f answer.1 version.row >>= λ v. ok (
            served week_start (some parity)
              (freshness_of fresh_for later (some checked_at) none false) (some v))))

  -- With distinct snapshot ids: a synchronization that succeeds serves a version whose row is in the
  -- table; and the next load, at any time, reads that row and, unless the row's lessons fail its
  -- checks, serves what it reads with the parity of the synchronization, as confirmed at the moment
  -- of the synchronization and without a failure.
  pub success_is_read :
      (parity : WeekParity) (checked_at later : ℕ) (lessons : List Lesson) (store : Store)
      {answer : SyncResult × Store}
      → Distinct (map snapshot_key store.snapshots)
      → sync_answered f wf floats fresh_for retain group_key week_start parity checked_at lessons
          store
        ≡ ok answer
      → (version : StoredVersion) × Serves version parity checked_at later answer
  unfolding sync_answered store_snapshot confirm write_marker load_version
  success_is_read parity checked_at later lessons store distinct h =
      let snapshot : ScheduleSnapshot = record {
        source = spbgasu;
        group_key = group_key;
        fetched_at = checked_at;
        lessons = lessons;
      } in
      let (previous, _, h₁) =
        >>=-eq-ok (load_confirmation f spbgasu group_key week_start store) _ h in
      let (made, ran, h₂) = >>=-eq-ok (store_snapshot f snapshot week_start parity store) _ h₁ in
      let (changes, _, h₃) = >>=-eq-ok (compared f.unicode floats previous.version made.0.0) _ h₂ in
      let (saved, ran', h₄) =
        >>=-eq-ok (store_changes f previous.version made.0.0 changes checked_at made.1) _ h₃ in
      let stored =
        stored-InTable f group_key week_start snapshot parity store _ refl refl distinct refl ran in
      let same =
        store_changes-snapshots f group_key week_start previous.version made.0.0 changes checked_at
          made.1 ran' in
      let listed = ap (find_snapshot made.0.0.row.id) (sym same) ∙ stored.0 in
      (
        made.0.0,
        subst (λ a. Serves made.0.0 parity checked_at later a) (ok_inj h₄)
            (
              refl,
              listed,
              latest-confirm f group_key week_start fresh_for later checked_at parity made.0.0
                  saved.1 (listed, stored.1),
            ),
      )
