-- ===== src/Inbox/Steps.antt =====
-- Redelivered updates, repeated outcomes, and the inboxes that calls can reach.
use mathlib.Core.Option
use gasu_schedule_bot.Base.{
  ℕ, ◌≡◌, refl, String, Bool, true, false, not, Option, exists, str_eq, ok, >>=-eq-ok,
  raise_if-eq-ok, DateTime, aware, arith, Bool-cases, inl, inr,
}
use gasu_schedule_bot.Base.Int.{ℤ, pos}
use gasu_schedule_bot.Sql.{RowIds}
use gasu_schedule_bot.Inbox.{
  InboxUpdate, ProcessedUpdate, Inbox, outcomes, unsupported_outcome, of_outcome, of_update,
  update_key, new_update, admit_update, close_update, non_negative, aware_instant,
  enqueue_raw_update, record_processed_update,
}
use gasu_schedule_bot.Inbox.Ledger.{
  exists-append, IsConsistent, inbox_of, admit-IsConsistent, close-IsConsistent,
}

module _ {P : Type 0} where
  admitted :
      (row : InboxUpdate P) (inbox : Inbox P)
      → exists (of_update row.update_id) (admit_update row inbox).1.updates ≡ true
  admitted row inbox = elim (Bool-cases (exists (of_update row.update_id) inbox.updates)) [
    | inl e ↦ rw (e, e) refl
    | inr e ↦ rw (e, exists-append (of_update row.update_id) inbox.updates row) (ground arith)
  ]

  module _ (ids ids' : RowIds (update_key {P = P})) (now now' : DateTime) (payload payload' : P)
      (received_at received_at' : Option DateTime) (t update_id : ℕ) (inbox : Inbox P) where
    -- Once an update has been delivered, every redelivery, whatever its payload and its aware time,
    -- answers that nothing was inserted and leaves the inbox as it is.
    pub redelivery_ignored :
        {answer : Bool} {after : Inbox P}
        → enqueue_raw_update ids now (pos update_id) payload received_at inbox ≡ ok (answer, after)
        → Option.get_or received_at' now' ≡ aware t
        → enqueue_raw_update ids' now' (pos update_id) payload' received_at' after
          ≡ ok (false, after)
    unfolding enqueue_raw_update
    redelivery_ignored {answer} {after} h read =
        let (timestamp, _, h₁) = >>=-eq-ok (aware_instant (Option.get_or received_at now)) _ h in
        let row = new_update (ids.next inbox.updates) update_id payload timestamp in
        let is_after : after ≡ (admit_update row inbox).1 = inbox_of h₁ in
        let there : exists (of_update update_id) after.updates ≡ true =
          rw is_after (admitted row inbox) in
        rw (read, there) refl

  recorded :
      (row : ProcessedUpdate) (inbox : Inbox P) {answer : Bool} {after : Inbox P}
      → close_update row inbox ≡ ok (answer, after)
      → exists (of_outcome row.update_id) after.processed ≡ true
  recorded row inbox {answer} {after} h =
      elim (Bool-cases (exists (of_outcome row.update_id) inbox.processed)) [
        | inl e ↦ rw (inbox_of (rw e at h)) e
        | inr e ↦ elim (Bool-cases (exists (of_update row.update_id) inbox.updates)) [
          | inl there ↦
              rw
                (
                  inbox_of (rw (e, there) at h),
                  exists-append (of_outcome row.update_id) inbox.processed row,
                )
                (ground arith)
          | inr missing ↦ cc (rw (e, missing) at h)
        ]
      ]

  module _ (now now' : DateTime) (update_id t : ℕ) (handler handler' outcome outcome' : String)
      (detail detail' : Option String) (processed_at processed_at' : Option DateTime)
      (inbox : Inbox P) where
    -- Once the outcome of an update has been recorded, recording any supported outcome for it again
    -- answers false and leaves both tables as they are: the first outcome stays.
    pub first_outcome_stays :
        {answer : Bool} {after : Inbox P}
        → record_processed_update now update_id handler outcome detail processed_at inbox
          ≡ ok (answer, after)
        → exists (λ o. str_eq outcome' o) outcomes ≡ true
        → Option.get_or processed_at' now' ≡ aware t
        → record_processed_update now' update_id handler' outcome' detail' processed_at' after
          ≡ ok (false, after)
    unfolding record_processed_update
    first_outcome_stays {answer} {after} h supported read =
        let (_, h₁) =
          raise_if-eq-ok (not (exists (λ o. str_eq outcome o) outcomes)) unsupported_outcome _ h in
        let (timestamp, _, h₂) = >>=-eq-ok (aware_instant (Option.get_or processed_at now)) _ h₁ in
        let there = recorded _ inbox h₂ in rw (supported, read, there) refl

  -- One call that returned.
  pub data Step (inbox inbox' : Inbox P) : Type 0 where
    delivers :
        (ids : RowIds update_key) (now : DateTime) (update_id : ℤ) (payload : P)
        (received_at : Option DateTime) (answer : Bool)
        → enqueue_raw_update ids now update_id payload received_at inbox ≡ ok (answer, inbox')
        → Step inbox inbox'
    records :
        (now : DateTime) (update_id : ℕ) (handler outcome : String) (detail : Option String)
        (processed_at : Option DateTime) (answer : Bool)
        → record_processed_update now update_id handler outcome detail processed_at inbox
          ≡ ok (answer, inbox')
        → Step inbox inbox'

  pub data Reach (inbox : Inbox P) : Inbox P → Type 0 where
    here : Reach inbox inbox
    next : {before after : Inbox P} → Reach inbox before → Step before after → Reach inbox after

  Step-IsConsistent :
      {inbox inbox' : Inbox P} → IsConsistent inbox → Step inbox inbox' → IsConsistent inbox'
  unfolding enqueue_raw_update record_processed_update
  Step-IsConsistent {inbox} c (delivers ids now update_id payload received_at answer h) =
      let (id, _, h₁) = >>=-eq-ok (non_negative update_id) _ h in
      let (timestamp, _, h₂) = >>=-eq-ok (aware_instant (Option.get_or received_at now)) _ h₁ in
      rw (inbox_of h₂)
        (admit-IsConsistent (new_update (ids.next inbox.updates) id payload timestamp) inbox refl c)
  Step-IsConsistent {inbox} c (records now update_id handler outcome detail processed_at answer h) =
      let (_, h₁) =
        raise_if-eq-ok (not (exists (λ o. str_eq outcome o) outcomes)) unsupported_outcome _ h in
      let (timestamp, _, h₂) = >>=-eq-ok (aware_instant (Option.get_or processed_at now)) _ h₁ in
      close-IsConsistent _ inbox c h₂

  -- From a consistent inbox any calls lead to a consistent inbox: every outcome belongs to an
  -- update that was delivered, and an update is closed exactly if its outcome is recorded.
  pub Reach-IsConsistent :
      {inbox inbox' : Inbox P} → IsConsistent inbox → Reach inbox inbox' → IsConsistent inbox'
  Reach-IsConsistent c here = c
  Reach-IsConsistent c (next r s) = Step-IsConsistent (Reach-IsConsistent c r) s
