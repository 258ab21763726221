-- ===== src/Schedule/Sync/Loaded.antt =====
-- The version of a confirmation is what a row of the store reads as.
use gasu_schedule_bot.Base.{
  ℕ, ◌≡◌, refl, sym, ap, ◌∙◌, subst, Bool, true, false, Bool-cases, inl, inr, Option, none, some,
  List, map, Text, ok, >>=-eq-ok, ok_inj,
}
use gasu_schedule_bot.Sql.Unique.{Distinct}
use gasu_schedule_bot.Schedule.Lesson.{ScheduleSnapshot}
use gasu_schedule_bot.Schedule.Store.{
  Field, null, words, number, other, Marker, MarkerRow, SnapshotRow, Store, Formats, snapshot_key,
  StoredVersion, Confirmation, LessonRow,
}
use gasu_schedule_bot.Schedule.Store.Loading.{
  rows_of, checked_version, domain_lessons, load_version, find_marker, find_snapshot,
  newer_snapshot, is_of_week, is_marker, with_version, with_row, with_id, load_marker, load_found,
  from_row, parsed_or, load_confirmation,
}
use gasu_schedule_bot.Schedule.Sync.Rows.{
  some_inj, Distinct-found, select_where-All, first_by-All, found_id,
}

checked_row :
    (row : SnapshotRow) (snapshot : ScheduleSnapshot) (rows : List LessonRow)
    (hash duplicates : Bool) {version : StoredVersion}
    → checked_version row snapshot rows hash duplicates ≡ ok version
    → version.row ≡ row
checked_row row snapshot rows false duplicates h = cc
checked_row row snapshot rows true true h = cc
checked_row row snapshot rows true false h = ap (λ v. v.row) (sym (ok_inj h))

module _ (f : Formats) (source group_key : Text) (week_start : ℕ) (store : Store) where
  -- The version that a confirmation names is what its row of the store reads as.
  abbrev pub IsLoaded : Option StoredVersion → Type 0
  IsLoaded none = Unit
  IsLoaded (some version) =
      (find_snapshot version.row.id store.snapshots ≡ some version.row)
      × (is_of_week f source group_key week_start version.row ≡ true)
      × (load_version f store version.row ≡ ok version)

  pub loaded_row :
      (row : SnapshotRow) {version : StoredVersion}
      → load_version f store row ≡ ok version
      → version.row ≡ row
  unfolding load_version
  loaded_row row h =
      let (lessons, _, h₁) = >>=-eq-ok (domain_lessons f.unicode (rows_of store row)) _ h in
      checked_row row _ _ _ _ h₁

  row-IsLoaded :
      (row : SnapshotRow) {version : StoredVersion}
      → find_snapshot row.id store.snapshots ≡ some row
      → is_of_week f source group_key week_start row ≡ true
      → load_version f store row ≡ ok version
      → IsLoaded (some version)
  row-IsLoaded row found usable h =
      let same = loaded_row row h in
      (
        ap (λ r. find_snapshot r.id store.snapshots) same ∙ found ∙ ap some (sym same),
        ap (is_of_week f source group_key week_start) same ∙ usable,
        ap (load_version f store) same ∙ h,
      )

  version-IsLoaded :
      (m : Marker) (row : SnapshotRow) (usable : Bool) {c : Confirmation}
      → find_snapshot row.id store.snapshots ≡ some row
      → is_of_week f source group_key week_start row ≡ usable
      → with_version f source group_key week_start store m row usable ≡ ok (some c)
      → IsLoaded c.version
  version-IsLoaded m row false found same h = cc
  version-IsLoaded m row true found same h =
      let (version, loaded, h₁) = >>=-eq-ok (load_version f store row) _ h in
      subst (λ c. IsLoaded c.version) (some_inj (ok_inj h₁)) (row-IsLoaded row found same loaded)

  found-IsLoaded :
      (m : Marker) (id : ℕ) (row : Option SnapshotRow) {c : Confirmation}
      → find_snapshot id store.snapshots ≡ row
      → with_row f source group_key week_start store m row ≡ ok (some c)
      → IsLoaded c.version
  found-IsLoaded m id none found h = cc
  found-IsLoaded m id (some row) found h =
      version-IsLoaded m row _
        (subst (λ i. find_snapshot i store.snapshots ≡ some row)
          (sym (found_id id store.snapshots found)) found)
        refl h

  -- What a marker gives back was loaded from its row.
  with_id-IsLoaded :
      (m : Marker) (field : Field) {c : Confirmation}
      → with_id f source group_key week_start store m field ≡ ok (some c)
      → IsLoaded c.version
  with_id-IsLoaded m null h = subst (λ c. IsLoaded c.version) (some_inj (ok_inj h)) tt
  with_id-IsLoaded m (number id) h = found-IsLoaded m id _ refl h
  with_id-IsLoaded m (words t) h = cc
  with_id-IsLoaded m other h = cc

  load_marker-IsLoaded :
      (value : Option Marker) {c : Confirmation}
      → load_marker f source group_key week_start store value ≡ ok (some c)
      → IsLoaded c.version
  unfolding load_marker
  load_marker-IsLoaded none h = cc
  load_marker-IsLoaded (some m) h = elim (Bool-cases (is_marker f source group_key week_start m)) [
    | inl e ↦ with_id-IsLoaded m m.snapshot_id (rw e at h)
    | inr e ↦ cc (rw e at h)
  ]

  load_found-IsLoaded :
      (row : Option MarkerRow) {c : Confirmation}
      → load_found f source group_key week_start store row ≡ ok (some c)
      → IsLoaded c.version
  load_found-IsLoaded none h = cc
  load_found-IsLoaded (some row) h = load_marker-IsLoaded row.value h

  from_row-IsLoaded :
      (row : Option SnapshotRow) {c : Confirmation}
      → ((r : SnapshotRow)
          → row ≡ some r
          → (find_snapshot r.id store.snapshots ≡ some r)
            × (is_of_week f source group_key week_start r ≡ true))
      → from_row f source group_key week_start store row ≡ ok c
      → IsLoaded c.version
  from_row-IsLoaded none known h = subst (λ c. IsLoaded c.version) (ok_inj h) tt
  from_row-IsLoaded (some row) known h =
      let (version, loaded, h₁) = >>=-eq-ok (load_version f store row) _ h in
      let (found, usable) = known row refl in
      subst (λ c. IsLoaded c.version) (ok_inj h₁) (row-IsLoaded row found usable loaded)

  module _ (distinct : Distinct (map snapshot_key store.snapshots)) where
    parsed-IsLoaded :
        (parsed : Option Confirmation) {c : Confirmation}
        → ((p : Confirmation) → parsed ≡ some p → IsLoaded p.version)
        → parsed_or f source group_key week_start store parsed ≡ ok c
        → IsLoaded c.version
    parsed-IsLoaded (some p) known h = subst (λ c. IsLoaded c.version) (ok_inj h) (known p refl)
    parsed-IsLoaded none known h =
        from_row-IsLoaded _
          (λ r found.
            first_by-All _ newer_snapshot _
              (select_where-All (λ x. find_snapshot x.id store.snapshots ≡ some x)
                (is_of_week f source group_key week_start) store.snapshots
                (Distinct-found store.snapshots distinct))
              found)
          h

    -- With distinct snapshot ids, the version of a confirmation that loads is what a complete
    -- snapshot of its week, found by its id, reads as.
    pub load_confirmation-IsLoaded :
        {c : Confirmation}
        → load_confirmation f source group_key week_start store ≡ ok c
        → IsLoaded c.version
    unfolding load_confirmation
    load_confirmation-IsLoaded h =
        let marker = find_marker (f.confirmation_key source group_key week_start) store.markers in
        let (parsed, ran, h₁) =
          >>=-eq-ok (load_found f source group_key week_start store marker)
            (parsed_or f source group_key week_start store) h in
        parsed-IsLoaded parsed (λ p same. load_found-IsLoaded marker (ran ∙ ap ok same)) h₁
