-- ===== src/Schedule/Sync/Confirmed.antt =====
-- A synchronization that succeeds is what the next load reads.
use gasu_schedule_bot.Base.{
  ℕ, ◌≡◌, refl, ap, ◌∙◌, true, false, none, some, Text, text_eq_refl, Result, ok, raise, ◌>>=◌,
}
use gasu_schedule_bot.Schedule.Page.{WeekParity}
use gasu_schedule_bot.Schedule.Store.{
  SyncError, Store, Formats, spbgasu, StoredVersion, Confirmation, optional_parity,
  optional_failure, optional_datetime,
}
use gasu_schedule_bot.Schedule.Store.Loading.{
  load_version, find_marker, find_snapshot, is_of_week, is_marker, load_marker, load_found,
  load_confirmation, parsed_or, confirmation_of,
}
use gasu_schedule_bot.Schedule.Sync.{
  marker_key, confirming_marker, confirm, write_marker, put_marker,
}
use gasu_schedule_bot.Schedule.Sync.Rows.{find-put_marker}

module _ (f : Formats) (group_key : Text) (week_start : ℕ) where
  abbrev pub confirmed_now : ℕ → WeekParity → StoredVersion → Confirmation
  confirmed_now checked_at parity version = record {
    version = some version;
    confirmed_at = some checked_at;
    parity = some parity;
    last_attempt_failed = false;
    failure = none;
  }

  confirming-is_marker :
      (checked_at : ℕ) (parity : WeekParity) (version : StoredVersion)
      → is_marker f spbgasu group_key week_start
          (confirming_marker f group_key week_start checked_at parity version)
        ≡ true
  unfolding is_marker
  confirming-is_marker checked_at parity version =
      rw (text_eq_refl group_key, text_eq_refl (f.date_text week_start)) refl

  confirming_confirmation :
      (checked_at : ℕ) (parity : WeekParity) (version read : StoredVersion)
      → confirmation_of f spbgasu group_key week_start
          (confirming_marker f group_key week_start checked_at parity version)
          (some read)
        ≡ confirmed_now checked_at parity read
  unfolding optional_parity optional_datetime optional_failure
  confirming_confirmation checked_at WeekParity.numerator version read =
      rw (f.parse-datetime_text checked_at) refl
  confirming_confirmation checked_at WeekParity.denominator version read =
      rw (f.parse-datetime_text checked_at) refl

  reads :
      (store : Store) (checked_at : ℕ) (parity : WeekParity) (version : StoredVersion)
      (read : Result SyncError StoredVersion)
      → ((read >>= λ v. ok (
            some (
              confirmation_of f spbgasu group_key week_start
                (confirming_marker f group_key week_start checked_at parity version)
                (some v))))
          >>= parsed_or f spbgasu group_key week_start store)
        ≡ (read >>= λ v. ok (confirmed_now checked_at parity v))
  reads store checked_at parity version (raise e) = refl
  reads store checked_at parity version (ok v) =
      ap ok (confirming_confirmation checked_at parity version v)

  -- What is confirmed is loaded from the row of the version, as of the moment of the check.
  pub load-confirm :
      (store : Store) (checked_at : ℕ) (parity : WeekParity) (version : StoredVersion)
      → find_snapshot version.row.id store.snapshots ≡ some version.row
      → is_of_week f spbgasu group_key week_start version.row ≡ true
      → load_confirmation f spbgasu group_key week_start
          (confirm f group_key week_start checked_at parity version store)
        ≡ (load_version f store version.row >>= λ v. ok (confirmed_now checked_at parity v))
  unfolding load_confirmation confirm write_marker load_marker load_version
  load-confirm store checked_at parity version stored usable =
      let key = marker_key f group_key week_start in
      let value = some (confirming_marker f group_key week_start checked_at parity version) in
      let (r, found, same) =
        find-put_marker key value checked_at (find_marker key store.markers) store.markers refl in
      let after = record store {
        markers = put_marker key value checked_at (find_marker key store.markers) store.markers;
      } in
      ap (λ x. x >>= parsed_or f spbgasu group_key week_start after)
        (ap (load_found f spbgasu group_key week_start after) found
          ∙ ap (load_marker f spbgasu group_key week_start after) same
          ∙ rw (confirming-is_marker checked_at parity version, stored, usable) refl)
      ∙ reads after checked_at parity version (load_version f after version.row)
