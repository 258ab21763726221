-- ===== src/Schedule/Coordinator/Kept.antt =====
-- A week whose source fails is served as it was confirmed.
use gasu_schedule_bot.Base.{
  ℕ, ◌≡◌, refl, sym, ap, ◌∙◌, subst, Bool, true, ◌&&◌, not, Bool-cases, inl, inr, Option, some, [],
  ◌==◌, Text, text_eq, DateTime, Result, ok, raise, >>=-eq-ok, raise_if-eq-ok, ok_inj,
}
use gasu_schedule_bot.Schedule.Diff.{Floats}
use gasu_schedule_bot.Schedule.Lesson.{Unicode}
use gasu_schedule_bot.Schedule.Page.{WeekParity, SourceError, weekday_of, strip}
use gasu_schedule_bot.Schedule.Week.{WeekFormats, parity_for_week}
use gasu_schedule_bot.Schedule.Store.{
  SourceFailure, SyncError, Store, Formats, Confirmation, spbgasu,
}
use gasu_schedule_bot.Schedule.Store.Loading.{load_confirmation}
use gasu_schedule_bot.Schedule.Sync.{
  ConfirmedSchedule, Freshness, SyncResult, served, freshness_of, aware_utc, validate_request,
  write_marker, record_failed_attempt, latest_confirmed, sync_failed, load_latest_confirmed,
}
use gasu_schedule_bot.Schedule.Sync.Saving.Call.{failed, classify_failure, sync_with, sync_week}
use gasu_schedule_bot.Schedule.Coordinator.{
  ScheduleAccess, is_fresh, synced_access, monday_for, is_source_error, parity_error, refresh,
  after_bootstrap, get_week,
}

validated :
    (u : Unicode) (group_key : Text) (week_start : ℕ) {group : Text}
    → validate_request u group_key week_start ≡ ok group
    → strip u group_key ≡ group
unfolding validate_request
validated u group_key week_start h =
    let (_, h₁) = raise_if-eq-ok (text_eq (strip u group_key) []) SyncError.empty_group _ h in
    let (_, h₂) = raise_if-eq-ok (not (weekday_of week_start == 0)) SyncError.not_monday _ h₁ in
    ok_inj h₂

classified :
    (error : SourceError)
    → is_source_error error ≡ true
    → (failure : SourceFailure) × (classify_failure error ≡ failed failure)
classified SourceError.unavailable h = (_, refl)
classified SourceError.group_not_found h = (_, refl)
classified (SourceError.protocol _) h = (_, refl)
classified SourceError.empty_group h = cc
classified SourceError.not_monday h = cc
classified SourceError.not_week_offset h = cc
classified (SourceError.bad_lesson _) h = cc

module _ (f : Formats) (wf : WeekFormats) (floats : Floats) (fresh_for : ℕ) (retain : Bool)
    (group_key : Text) (week_start : ℕ) (store : Store) (c : Confirmation) where
  abbrev group : Text
  group = strip f.unicode group_key

  -- The version that was confirmed, whatever is said of its freshness, and an unchanged timetable.
  abbrev pub IsKept : Option ConfirmedSchedule → Store → Type 0
  IsKept schedule store' =
      ((freshness : Freshness) × (schedule ≡ served week_start c.parity freshness c.version))
      × (store'.snapshots ≡ store.snapshots)
      × (store'.lessons ≡ store.lessons)
      × (store'.changes ≡ store.changes)

  module _ (before : load_confirmation f spbgasu group week_start store ≡ ok c) where
    load-IsKept :
        (clock : DateTime) {confirmed : Option ConfirmedSchedule}
        → load_latest_confirmed f fresh_for clock group_key week_start store ≡ ok confirmed
        → IsKept confirmed store
    unfolding load_latest_confirmed latest_confirmed
    load-IsKept clock h =
        let (g, valid, h₁) = >>=-eq-ok (validate_request f.unicode group_key week_start) _ h in
        let (t, _, h₂) = >>=-eq-ok (aware_utc clock) _ h₁ in
        let (c', loaded, h₃) = >>=-eq-ok (load_confirmation f spbgasu g week_start store) _ h₂ in
        let same : c ≡ c' = ok_inj (
          sym before
          ∙ ap (λ x. load_confirmation f spbgasu x week_start store)
              (validated f.unicode group_key week_start valid)
          ∙ loaded) in
        let fresh = freshness_of fresh_for t c'.confirmed_at c'.failure c'.last_attempt_failed in
        (
          (
            fresh,
            sym (ok_inj h₃) ∙ ap (λ x. served week_start x.parity fresh x.version) (sym same),
          ),
          refl,
          refl,
          refl,
        )

    -- What an access says of the timetable, and that it reports no change.
    abbrev pub Keeps : ScheduleAccess × Store → Type 0
    Keeps answer =
        IsKept answer.0.schedule answer.1 × (answer.0.changes ≡ []) × (answer.0.change_ids ≡ [])

    failed-Keeps :
        (failure : SourceFailure) (parity : WeekParity) (clock : DateTime) (g : Text)
        {answer : SyncResult × Store}
        → group ≡ g
        → sync_with f wf floats fresh_for retain g week_start parity clock store (failed failure)
          ≡ ok answer
        → Keeps (synced_access answer.0, answer.1)
    unfolding sync_failed record_failed_attempt write_marker
    failed-Keeps failure parity clock g same h =
        let (t, _, h₁) = >>=-eq-ok (aware_utc clock) _ h in
        let (c', loaded, h₂) = >>=-eq-ok (load_confirmation f spbgasu g week_start store) _ h₁ in
        let same' : c ≡ c' =
          ok_inj
            (sym before ∙ ap (λ x. load_confirmation f spbgasu x week_start store) same ∙ loaded) in
        let fresh = freshness_of fresh_for t c'.confirmed_at (some failure) true in
        subst (λ a. Keeps (synced_access a.0, a.1)) (ok_inj h₂)
          (
            (
              (fresh, ap (λ x. served week_start x.parity fresh x.version) (sym same')),
              refl,
              refl,
              refl,
            ),
            refl,
            refl,
          )

    refresh-Keeps :
        (error : SourceError) (number today : ℕ) (clock : DateTime)
        {answer : ScheduleAccess × Store}
        → is_source_error error ≡ true
        → refresh f wf floats fresh_for retain group_key week_start number today
            (raise error)
            clock
            store
          ≡ ok answer
        → Keeps answer
    unfolding refresh sync_week
    refresh-Keeps error number today clock source h =
        let (parity, _, h₁) =
          >>=-eq-ok (parity_error (parity_for_week number (monday_for today) week_start)) _ h in
        let (synced, ran, h₂) =
          >>=-eq-ok
            (sync_week f wf floats fresh_for retain group_key week_start parity (raise error) clock
              store)
            _ h₁ in
        let (g, valid, h₃) = >>=-eq-ok (validate_request f.unicode group_key week_start) _ ran in
        let (failure, is_failure) = classified error source in
        subst Keeps (ok_inj h₂) (
          failed-Keeps failure parity clock g (validated f.unicode group_key week_start valid) (
            ap (sync_with f wf floats fresh_for retain g week_start parity clock store)
              (sym is_failure)
            ∙ h₃))

    access-Keeps :
        (error : SourceError) (bootstrap : Result SourceError ℕ) (today : ℕ) (clock : DateTime)
        (confirmed : Option ConfirmedSchedule) {answer : ScheduleAccess × Store}
        → is_source_error error ≡ true
        → IsKept confirmed store
        → after_bootstrap f wf floats fresh_for retain group_key confirmed week_start bootstrap
            today
            (raise error)
            clock
            store
          ≡ ok answer
        → Keeps answer
    access-Keeps error (raise e) today clock confirmed source kept h =
        elim (Bool-cases (is_source_error e)) [
          | inl b ↦ subst Keeps (ok_inj (rw b at h)) (kept, refl, refl)
          | inr b ↦ cc (rw b at h)
        ]
    access-Keeps error (ok number) today clock confirmed source kept h =
        refresh-Keeps error number today clock source h

    -- Where a confirmation of the week loads and the source of lessons fails, a week that is
    -- returned, by force or not, and whether the bootstrap page is there or not, shows the version
    -- and the parity that were confirmed, reports no change, and leaves the stored timetable alone.
    pub get_week-Keeps :
        (force : Bool) (loading clock : DateTime) (bootstrap : Result SourceError ℕ) (today : ℕ)
        (error : SourceError) {answer : ScheduleAccess × Store}
        → is_source_error error ≡ true
        → get_week f wf floats fresh_for retain group_key week_start force loading bootstrap today
            (raise error)
            clock
            store
          ≡ ok answer
        → Keeps answer
    unfolding get_week
    get_week-Keeps force loading clock bootstrap today error source h =
        let (_, h₁) = raise_if-eq-ok (not (weekday_of week_start == 0)) SyncError.not_monday _ h in
        let (confirmed, loaded, h₂) =
          >>=-eq-ok (load_latest_confirmed f fresh_for loading group_key week_start store) _ h₁ in
        let kept = load-IsKept loading loaded in
        elim (Bool-cases (not force && is_fresh confirmed)) [
          | inl b ↦ subst Keeps (ok_inj (rw b at h₂)) (kept, refl, refl)
          | inr b ↦ access-Keeps error bootstrap today clock confirmed source kept (rw b at h₂)
        ]
