-- ===== src/Schedule/Sync/Failed.antt =====
-- A synchronization that fails keeps what was confirmed.
use gasu_schedule_bot.Base.{
  ℕ, ◌≡◌, ◌≢◌, refl, ap, ◌∙◌, true, Option, none, some, List, map, Text, text_eq_refl, ok, ◌>>=◌,
}
use gasu_schedule_bot.Sql.Unique.{Distinct}
use gasu_schedule_bot.Schedule.Page.{WeekParity}
use gasu_schedule_bot.Schedule.Store.{
  FreshnessState, SourceFailure, words, number, Marker, MarkerRow, Store, Formats, snapshot_key,
  spbgasu, StoredVersion, Confirmation, parity_value, failure_value, optional_parity,
  optional_failure, optional_datetime, zoned,
}
use gasu_schedule_bot.Schedule.Store.Loading.{
  load_version, find_marker, is_marker, confirmation_of, with_id, load_marker, load_found,
  load_confirmation, parsed_or,
}
use gasu_schedule_bot.Schedule.Sync.{
  SyncResult, freshness_of, served, field_of, marker_key, failed_marker, write_marker, put_marker,
  record_failed_attempt, latest_confirmed, failed_answer, sync_failed,
}
use gasu_schedule_bot.Schedule.Sync.Rows.{find-put_marker}
use gasu_schedule_bot.Schedule.Sync.Loaded.{IsLoaded, load_confirmation-IsLoaded}

-- What is confirmed after a failure: the same, with the failure noted.
abbrev pub after_failure : SourceFailure → Confirmation → Confirmation
after_failure failure c = record {
  version = c.version;
  confirmed_at = c.confirmed_at;
  parity = c.parity;
  last_attempt_failed = true;
  failure = some failure;
}

parity_back :
    (p : Option WeekParity) → optional_parity (field_of (λ p. words (parity_value p)) p) ≡ p
unfolding optional_parity
parity_back none = refl
parity_back (some WeekParity.numerator) = refl
parity_back (some WeekParity.denominator) = refl

failure_back :
    (failure : SourceFailure) → optional_failure (words (failure_value failure)) ≡ some failure
unfolding optional_failure
failure_back SourceFailure.source_unavailable = refl
failure_back SourceFailure.group_not_found = refl
failure_back SourceFailure.invalid_response = refl

module _ (f : Formats) (group_key : Text) (week_start : ℕ) where
  datetime_back :
      (t : Option ℕ) → optional_datetime f (field_of (λ t. words (f.datetime_text t)) t) ≡ t
  unfolding optional_datetime
  datetime_back none = refl
  datetime_back (some t) = ap zoned (f.parse-datetime_text t)

  failed_confirmation :
      (failure : SourceFailure) (c : Confirmation)
      → confirmation_of f spbgasu group_key week_start
          (failed_marker f group_key week_start failure c)
          c.version
        ≡ after_failure failure c
  failed_confirmation failure c =
      rw (datetime_back c.confirmed_at, parity_back c.parity, failure_back failure) refl

  failed-is_marker :
      (failure : SourceFailure) (c : Confirmation)
      → is_marker f spbgasu group_key week_start (failed_marker f group_key week_start failure c)
        ≡ true
  unfolding is_marker
  failed-is_marker failure c =
      rw (text_eq_refl group_key, text_eq_refl (f.date_text week_start)) refl

  version_back :
      (store : Store) (m : Marker) (version : Option StoredVersion)
      → IsLoaded f spbgasu group_key week_start store version
      → with_id f spbgasu group_key week_start store m
          (field_of (λ version. number version.row.id) version)
        ≡ ok (some (confirmation_of f spbgasu group_key week_start m version))
  version_back store m none loaded = refl
  version_back store m (some version) (found, usable, read) = rw (found, usable, read) refl

  reload_marker :
      (store : Store) (failure : SourceFailure) (c : Confirmation)
      → IsLoaded f spbgasu group_key week_start store c.version
      → load_marker f spbgasu group_key week_start store
          (some (failed_marker f group_key week_start failure c))
        ≡ ok (some (after_failure failure c))
  unfolding load_marker
  reload_marker store failure c loaded = rw (failed-is_marker failure c) (
      version_back store (failed_marker f group_key week_start failure c) c.version loaded
      ∙ ap (λ x. ok (some x)) (failed_confirmation failure c))

  -- Only the markers of a store were written.
  still-IsLoaded :
      (store : Store) (markers : List MarkerRow) (version : Option StoredVersion)
      → IsLoaded f spbgasu group_key week_start store version
      → IsLoaded f spbgasu group_key week_start (record store { markers = markers }) version
  unfolding load_version
  still-IsLoaded store markers none loaded = tt
  still-IsLoaded store markers (some version) loaded = loaded

  -- The attempt that failed is read back with the confirmation that it kept.
  reload_failed :
      (store : Store) (checked_at : ℕ) (failure : SourceFailure) (c : Confirmation)
      → IsLoaded f spbgasu group_key week_start store c.version
      → load_confirmation f spbgasu group_key week_start
          (record_failed_attempt f group_key week_start checked_at failure c store)
        ≡ ok (after_failure failure c)
  unfolding load_confirmation record_failed_attempt write_marker
  reload_failed store checked_at failure c loaded =
      let key = marker_key f group_key week_start in
      let value = some (failed_marker f group_key week_start failure c) in
      let (r, found, same) =
        find-put_marker key value checked_at (find_marker key store.markers) store.markers refl in
      let after = record store {
        markers = put_marker key value checked_at (find_marker key store.markers) store.markers;
      } in
      ap (λ x. x >>= parsed_or f spbgasu group_key week_start after)
        (ap (load_found f spbgasu group_key week_start after) found
          ∙ ap (load_marker f spbgasu group_key week_start after) same
          ∙ reload_marker after failure c (still-IsLoaded store _ c.version loaded))

  stale_after :
      (fresh_for checked_at : ℕ) (confirmed_at : Option ℕ) (failure : Option SourceFailure)
      → (freshness_of fresh_for checked_at confirmed_at failure true).state ≢ FreshnessState.fresh
  unfolding freshness_of
  stale_after fresh_for checked_at none failure = λ e. cc
  stale_after fresh_for checked_at (some t) failure = λ e. cc

  -- With distinct snapshot ids, and where a confirmation loads, the failure path of a
  -- synchronization returns, leaves the snapshots, lessons and changes alone, and every later load
  -- answers with the same version and parity as before, with the failure, and not as fresh.
  pub failure_keeps_confirmed :
      (fresh_for checked_at later : ℕ) (failure : SourceFailure) (store : Store) (c : Confirmation)
      → Distinct (map snapshot_key store.snapshots)
      → load_confirmation f spbgasu group_key week_start store ≡ ok c
      → (answer : SyncResult × Store) × (sync_failed f group_key week_start fresh_for checked_at
            failure store
          ≡ ok answer)
        × (latest_confirmed f group_key week_start fresh_for later answer.1
            ≡ ok (
                served week_start c.parity
                  (freshness_of fresh_for later c.confirmed_at (some failure) true)
                  c.version))
        × ((freshness_of fresh_for later c.confirmed_at (some failure) true).state
            ≢ FreshnessState.fresh)
        × (answer.1.snapshots ≡ store.snapshots)
        × (answer.1.lessons ≡ store.lessons)
        × (answer.1.changes ≡ store.changes)
  unfolding latest_confirmed sync_failed record_failed_attempt write_marker
  failure_keeps_confirmed fresh_for checked_at later failure store c distinct before =
      let loaded =
        load_confirmation-IsLoaded f spbgasu group_key week_start store distinct before in
      (
        failed_answer f group_key week_start fresh_for checked_at failure store c,
        rw before refl,
        rw (reload_failed store checked_at failure c loaded) refl,
        stale_after fresh_for later c.confirmed_at (some failure),
        refl,
        refl,
        refl,
      )
