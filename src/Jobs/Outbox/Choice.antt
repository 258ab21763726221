-- ===== src/Jobs/Outbox/Choice.antt =====
-- Which message the outbox's `claim_due` takes, and what it makes of every message of the table.
use mathlib.Core.List.{Memᴰ}
use mathlib.Core.Option
use gasu_schedule_bot.Base.{
  ℕ, ◌+◌, ◌≤◌, ◌≡◌, ◌≢◌, refl, ap, ◌∙◌, true, false, Option, none, some, List, map, arith, All,
  All-mono, Bool-cases, inl, inr, ok, DateTime, aware,
}
use gasu_schedule_bot.Sql.Unique.{Distinct}
use gasu_schedule_bot.Sql.First.{Finds}
use gasu_schedule_bot.Sql.Sweep.{
  row_after, table_after, table_after-map, found_before_sweep, Updated, rows-Updated,
}
use gasu_schedule_bot.Jobs.Policy.{min_lease, max_lease}
use gasu_schedule_bot.Jobs.Outbox.{
  OutboxStatus, OutboxMessage, OutboxClaim, message_id, exhausted_expired, expire,
  fail_exhausted_messages, message_is_due, sent_before, lease_message, claim_message,
}
use gasu_schedule_bot.Jobs.Outbox.Claims.{claimed, claim_message-Finds}
use gasu_schedule_bot.Jobs.Outbox.Ready.{
  Ready, Exhausted, NoLater, due-Ready, Ready-due, expired-Exhausted, Exhausted-expired,
  due-not_expired, expire-not_due, sent_before-NoLater,
}

module _ {P : Type 0} (now lease : ℕ) (messages : List (OutboxMessage P)) where
  -- A ready message of the table that no ready message comes before.
  pub record Chosen (j : OutboxMessage P) : Type 0 where
    pub row : Memᴰ j messages
    pub ready : Ready now j
    pub first : All (λ x. Ready now x → NoLater j x) messages

  -- The message that a claim takes, or none where no message is ready.
  abbrev pub Chooses : Option (OutboxMessage P) → Type 0
  Chooses none = All (λ x. ¬ Ready now x) messages
  Chooses (some j) = Chosen j

  -- The message `x` becomes `y`: the chosen one is leased, an exhausted one has failed, and
  -- any other is as it was.
  pub record Becomes (found : Option (OutboxMessage P)) (x y : OutboxMessage P) : Type 0 where
    pub leased :
        found ≡ some x
        → y ≡ record x {
          status = OutboxStatus.sending;
          attempts = x.attempts + 1;
          available_at = now + lease;
          last_error = none;
        }
    pub failed :
        Exhausted now x
        → y ≡ record x {
          status = OutboxStatus.failed;
          available_at = now;
          last_error = some "LeaseExpired";
        }
    pub kept : ¬ Exhausted now x → found ≢ some x → y ≡ x

  -- What the sender is handed of the chosen message.
  abbrev pub claim_on : OutboxMessage P → OutboxClaim P
  claim_on j = record {
    id = j.id;
    kind = j.kind;
    idempotency_key = j.idempotency_key;
    chat_id = j.chat_id;
    payload = j.payload;
    attempt = j.attempts + 1;
    max_attempts = j.max_attempts;
    leased_until = now + lease;
  }

  abbrev after_claim : Option (OutboxMessage P) → OutboxMessage P → OutboxMessage P
  after_claim =
      row_after message_id sent_before (message_is_due now) (exhausted_expired now) (expire now)
        (lease_message (now + lease))

  Finds-Chooses :
      (found : Option (OutboxMessage P))
      → Finds sent_before (message_is_due now) messages found
      → Chooses found
  Finds-Chooses none n =
      All-mono (λ x. message_is_due now x ≡ false) (λ x. ¬ Ready now x)
        (λ x no ready. let yes = Ready-due now x ready in absurd (ground (arith, no, yes))) messages
        n.fails
  Finds-Chooses (some j) f =
      let ready = due-Ready now j f.passes in
      record {
        row = f.row;
        ready = ready;
        first =
            All-mono (λ x. message_is_due now x ≡ true → sent_before x j ≡ false)
              (λ x. Ready now x → NoLater j x)
              (λ x least r. sent_before-NoLater now j x ready r (least (Ready-due now x r)))
              messages f.least;
      }

  Updated-Becomes :
      (found : Option (OutboxMessage P)) (x : OutboxMessage P)
      → Updated message_id sent_before
          (message_is_due now)
          (exhausted_expired now)
          (expire now)
          (lease_message (now + lease))
          found
          x
      → Becomes found x (after_claim found x)
  Updated-Becomes found x u = record {
    leased = u.claimed;
    failed = (λ e. u.failed (Exhausted-expired now x e));
    kept = (λ no. elim (Bool-cases (exhausted_expired now x)) [
      | inl e ↦ absurd (no (expired-Exhausted now x e))
      | inr e ↦ u.kept e
    ]);
  }

module _ {P : Type 0} (clock : ℕ → DateTime) (now lease : ℕ)
    (messages : List (OutboxMessage P)) where
  claimed-table_after :
      (found : Option (OutboxMessage P))
      → claimed clock now lease messages found ≡ (
        Option.map (claim_on now lease messages) found,
        table_after message_id sent_before
            (message_is_due now)
            (exhausted_expired now)
            (expire now)
            (lease_message (now + lease))
            found
            messages,
      )
  unfolding fail_exhausted_messages
  claimed-table_after none = refl
  claimed-table_after (some j) = refl

  -- With an aware clock and a lease in range, on a table with distinct ids, the outbox's `claim_due`
  -- hands out a ready message that no ready message comes before, or nothing where none is ready.
  -- The message that it hands out is leased, every message whose last attempt has lost its lease has
  -- failed, and every other message is as it was.
  -- A message is ready with attempts left, its time come and the status pending or sending; pending
  -- messages come first, then the earlier time, then the lower id.
  pub claim_message_picks_first :
      clock 0 ≡ aware now
      → min_lease ≤ lease
      → lease ≤ max_lease
      → Distinct (map message_id messages)
      → (found : Option (OutboxMessage P)) × (becomes : OutboxMessage P → OutboxMessage P) × Chooses
          now lease messages found
        × All (λ x. Becomes now lease messages found x (becomes x)) messages
        × (claim_message clock lease messages
            ≡ ok (Option.map (claim_on now lease messages) found, map becomes messages))
  claim_message_picks_first read low high unique =
      let (found, swept_finds, answer) =
        claim_message-Finds clock now lease messages read low high unique in
      let leased = lease_message (now + lease) in
      let apart = due-not_expired now in
      let finds =
        found_before_sweep message_id sent_before (message_is_due now) (exhausted_expired now)
          (expire now) leased apart (expire-not_due now) (λ x. refl) found messages
          (unfold fail_exhausted_messages in swept_finds) in
      let table =
        table_after-map message_id sent_before (message_is_due now) (exhausted_expired now)
          (expire now) leased found messages in
      (
        found,
        after_claim now lease messages found,
        Finds-Chooses now lease messages found finds,
        All-mono _ _ (Updated-Becomes now lease messages found) messages (
            rows-Updated message_id sent_before (message_is_due now) (exhausted_expired now)
              (expire now) leased apart (expire-not_due now) (λ x. refl) found messages unique
              finds),
        answer
            ∙ ap ok (claimed-table_after found)
            ∙ ap (λ t. ok (Option.map (claim_on now lease messages) found, t)) table,
      )
