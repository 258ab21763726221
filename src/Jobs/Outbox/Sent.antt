-- ===== src/Jobs/Outbox/Sent.antt =====
-- A message that has been sent stays as it is: no later call claims it, resends it or fails it.
use mathlib.Core.List.{Memᴰ}
use mathlib.Core.Option
use gasu_schedule_bot.Base.{
  ℕ, ◌+◌, ◌≡◌, ◌≢◌, refl, sym, ap, ◌∙◌, String, Bool, true, false, ◌&&◌, Option, none, some, List,
  [], ◌∷◌, ◌++◌, map, arith, All, All-mono, All-append, exists, ok, >>=-eq-ok, DateTime, Bool-cases,
  inl, inr,
}
use gasu_schedule_bot.Base.Int.{ℤ}
use gasu_schedule_bot.Sql.{update_where, select_where, one_or_none, RowIds}
use gasu_schedule_bot.Sql.Unique.{
  map-update_where, map-append_row, mem-append_left, All-update_where,
}
use gasu_schedule_bot.Jobs.Policy.{Outcome, aware_instant, validate_enqueue, validate_lease}
use gasu_schedule_bot.Jobs.Queue.{EnqueueResult}
use gasu_schedule_bot.Jobs.Outbox.{
  OutboxMessage, OutboxStatus, OutboxClaim, OutboxQueue, message_id, has_key, admit_message,
  enqueue_message, settle_existing, first_row, is_same_operation, fail_exhausted_messages,
  exhausted_expired, expire, message_is_due, claim_message, lease_message, holds, sent_row,
  mark_sent, failed_row, mark_failed,
}

module _ {P : Type 0} where
  -- The table holds this row under its id, and no other.
  pub record Holds (row : OutboxMessage P) (messages : List (OutboxMessage P)) : Type 0 where
    pub present : Memᴰ row.id (map message_id messages)
    pub alone : All (λ m. m.id ≡ row.id → m ≡ row) messages

  Holds-update :
      (row : OutboxMessage P) (test : OutboxMessage P → Bool)
      (f : OutboxMessage P → OutboxMessage P)
      → ((m : OutboxMessage P) → (f m).id ≡ m.id)
      → test row ≡ false
      → (messages : List (OutboxMessage P)) → Holds row messages
      → Holds row (update_where test f messages)
  Holds-update row test f same skip messages h = record {
    present = rw (map-update_where message_id test f same messages) h.present;
    alone =
        All-update_where (λ m. m.id ≡ row.id → m ≡ row) test f messages
          (All-mono (λ m. m.id ≡ row.id → m ≡ row)
            (λ m.
              (test m ≡ true → (f m).id ≡ row.id → f m ≡ row)
              × (test m ≡ false → m.id ≡ row.id → m ≡ row))
            (λ m is_row. (
              λ pass e.
                  absurd (true_not_false (sym pass ∙ ap test (is_row (sym (same m) ∙ e)) ∙ skip)),
              λ fail. is_row,
            ))
            messages h.alone);
  }
    where
      true_not_false : true ≡ false → ⊥
      true_not_false e = cc

  Holds-append :
      (row new : OutboxMessage P) (messages : List (OutboxMessage P))
      → All (λ m. m.id ≢ new.id) messages
      → Holds row messages
      → Holds row (messages ++ new ∷ [])
  Holds-append row new messages fresh h = record {
    present =
        rw (map-append_row message_id messages new)
          (mem-append_left row.id (map message_id messages) (new.id ∷ []) h.present);
    alone =
        All-append (λ m. m.id ≡ row.id → m ≡ row) messages (new ∷ []) h.alone
          (λ e. absurd (new_is_other messages fresh h.present (sym e)), tt);
  }
    where
      new_is_other :
          (ms : List (OutboxMessage P))
          → All (λ m. m.id ≢ new.id) ms
          → Memᴰ row.id (map message_id ms)
          → row.id ≢ new.id
      new_is_other [] f m = elim m [ ]
      new_is_other (x ∷ ms) f (Memᴰ.head here) = rw here f.0
      new_is_other (x ∷ ms) f (Memᴰ.tail there) = new_is_other ms f.1 there

table_of :
    {A B : Type 0} {a a' : A} {b b' : B}
    → ◌≡◌ {A = Outcome (A × B)} (ok (a, b)) (ok (a', b'))
    → b' ≡ b
table_of h = ground arith

module _ {P : Type 0} (payload_eq : P → P → Bool) (ids : RowIds (message_id {P = P})) where
  -- One call on the outbox that returned, with any clock, claim and arguments.
  pub data Step (messages messages' : List (OutboxMessage P)) : Type 0 where
    enqueues :
        (clock : ℕ → DateTime) (kind key : String) (payload : P) (chat_id : Option ℤ)
        (job_id : Option ℕ) (available_at : Option DateTime) (max_attempts : ℕ)
        (answer : EnqueueResult)
        → enqueue_message payload_eq ids clock kind key payload chat_id job_id available_at
            max_attempts messages
          ≡ ok (answer, messages')
        → Step messages messages'
    claims :
        (clock : ℕ → DateTime) (lease : ℕ) (answer : Option (OutboxClaim P))
        → claim_message clock lease messages ≡ ok (answer, messages')
        → Step messages messages'
    delivers :
        (clock : ℕ → DateTime) (claim : OutboxClaim P) (sent_id : Option ℤ) (answer : Bool)
        → mark_sent clock claim sent_id messages ≡ ok (answer, messages')
        → Step messages messages'
    fails :
        (q : OutboxQueue) (clock : ℕ → DateTime) (code : String) (claim : OutboxClaim P)
        (answer : Bool)
        → mark_failed q clock code claim messages ≡ ok (answer, messages')
        → Step messages messages'

  pub data Reach (messages : List (OutboxMessage P)) : List (OutboxMessage P) → Type 0 where
    here : Reach messages messages
    next :
        {before after : List (OutboxMessage P)}
        → Reach messages before
        → Step before after
        → Reach messages after

  module _ (row : OutboxMessage P) (sent : row.status ≡ OutboxStatus.sent) where
    admit-Holds :
        (new : OutboxMessage P) (messages : List (OutboxMessage P))
        {messages' : List (OutboxMessage P)} {answer : EnqueueResult}
        → All (λ m. m.id ≢ new.id) messages
        → Holds row messages
        → admit_message payload_eq new messages ≡ ok (answer, messages')
        → Holds row messages'
    unfolding admit_message
    admit-Holds new messages fresh held h =
        elim (Bool-cases (exists (has_key new.idempotency_key) messages)) [
          | inl e ↦
              settled (first_row (select_where (has_key new.idempotency_key) messages)) (rw e at h)
          | inr e ↦ rw (table_of (rw e at h)) (Holds-append row new messages fresh held)
        ]
      where
        settled :
            (found : Option (OutboxMessage P)) {ms' : List (OutboxMessage P)} {r : EnqueueResult}
            → settle_existing payload_eq new found messages ≡ ok (r, ms')
            → Holds row ms'
        settled none k = cc k
        settled (some existing) k = elim (Bool-cases (is_same_operation payload_eq existing new)) [
          | inl e ↦ rw (table_of (rw e at k)) held
          | inr e ↦ cc (rw e at k)
        ]

    not_due : (now : ℕ) (b : Bool) → (b && message_is_due now row) ≡ false
    unfolding message_is_due
    not_due now b = ground (arith, sent)

    not_exhausted : (now : ℕ) → exhausted_expired now row ≡ false
    not_exhausted now = rw sent

    not_held : (claim : OutboxClaim P) → holds claim row ≡ false
    unfolding holds
    not_held claim = ground (arith, sent)

    Step-Holds :
        {messages messages' : List (OutboxMessage P)}
        → Holds row messages
        → Step messages messages'
        → Holds row messages'
    unfolding enqueue_message claim_message mark_sent mark_failed fail_exhausted_messages
    Step-Holds {messages} held
          (enqueues clock kind key payload chat_id job_id available_at max_attempts answer h) =
        let (_, _, h₁) = >>=-eq-ok (validate_enqueue kind key max_attempts) _ h in
        let (_, _, h₂) = >>=-eq-ok (aware_instant (Option.get_or available_at (clock 0))) _ h₁ in
        let (_, _, h₃) = >>=-eq-ok (aware_instant (clock 1)) _ h₂ in
        admit-Holds _ messages (ids.next_is_new messages) held h₃
    Step-Holds {messages} held (claims clock lease answer h) =
        let (_, _, h₁) = >>=-eq-ok (validate_lease lease) _ h in
        let (now, _, h₂) = >>=-eq-ok (aware_instant (clock 0)) _ h₁ in
        let (_, _, h₃) = >>=-eq-ok (one_or_none _ _) _ h₂ in
        rw (table_of h₃) (
          Holds-update row _ (lease_message (now + lease)) (λ m. refl) (not_due now _) _
            (Holds-update row (exhausted_expired now) (expire now) (λ m. refl) (not_exhausted now)
              messages held))
    Step-Holds {messages} held (delivers clock claim sent_id answer h) =
        let (now, _, h₁) = >>=-eq-ok (aware_instant (clock 0)) _ h in
        rw (table_of h₁) (
          Holds-update row (holds claim) (sent_row now sent_id) (λ m. refl) (not_held claim)
            messages held)
    Step-Holds {messages} held (fails q clock code claim answer h) =
        let (now, _, h₁) = >>=-eq-ok (aware_instant (clock 0)) _ h in
        rw (table_of h₁) (
          Holds-update row (holds claim) (failed_row q code claim now) (λ m. refl) (not_held claim)
            messages held)

    -- A message that the table records as sent is never changed again: through any sequence of
    -- calls, by any senders, its row keeps its status, its Telegram id and all its other columns,
    -- and no other row has its id.
    pub Reach-Holds :
        {messages messages' : List (OutboxMessage P)}
        → Holds row messages
        → Reach messages messages'
        → Holds row messages'
    Reach-Holds held here = held
    Reach-Holds held (next r s) = Step-Holds (Reach-Holds held r) s
