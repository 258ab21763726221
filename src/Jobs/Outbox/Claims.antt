-- ===== src/Jobs/Outbox/Claims.antt =====
-- What `OutboxQueue.claim_due` hands to the sender, in terms of its own conditions and order.
use mathlib.Core.Option
use gasu_schedule_bot.Base.{
  ℕ, ◌+◌, ◌≤◌, ◌≡◌, refl, ap, true, false, Option, none, some, List, map, arith, ok, DateTime,
  aware, ◌==◌,
}
use gasu_schedule_bot.Sql.{select_where, update_where, first_by}
use gasu_schedule_bot.Sql.Unique.{Distinct, map-update_where}
use gasu_schedule_bot.Sql.Claim.{changed, claim_first}
use gasu_schedule_bot.Sql.First.{IsOrder, Finds}
use gasu_schedule_bot.Jobs.Policy.{min_lease, max_lease, validate_lease, multiple_rows}
use gasu_schedule_bot.Jobs.Outbox.{
  OutboxMessage, OutboxClaim, message_id, fail_exhausted_messages, message_is_due, sent_before,
  lease_message, claim_of, claim_message,
}

pub sent_before-IsOrder : {P : Type 0} → IsOrder (sent_before {P = P})
sent_before-IsOrder {P} = record { irrefl = irreflexive; asym = asymmetric; trans = transitive }
  where
    irreflexive : (a : OutboxMessage P) → sent_before a a ≡ false
    irreflexive a = unfold sent_before in ground arith

    asymmetric : (a b : OutboxMessage P) → sent_before a b ≡ true → sent_before b a ≡ false
    asymmetric a b h = unfold sent_before in ground arith

    transitive :
        (a b c : OutboxMessage P)
        → sent_before b a ≡ false
        → sent_before c b ≡ false
        → sent_before c a ≡ false
    transitive a b c h k = unfold sent_before in ground arith

valid_lease : (lease : ℕ) → min_lease ≤ lease → lease ≤ max_lease → validate_lease lease ≡ ok tt
unfolding validate_lease
valid_lease lease h k = ground arith

pub ids-fail_exhausted_messages :
    {P : Type 0} (now : ℕ) (messages : List (OutboxMessage P))
    → map message_id (fail_exhausted_messages now messages) ≡ map message_id messages
unfolding fail_exhausted_messages
ids-fail_exhausted_messages now messages = map-update_where message_id _ _ (λ m. refl) messages

module _ {P : Type 0} (clock : ℕ → DateTime) (now lease : ℕ)
    (messages : List (OutboxMessage P)) where
  abbrev pub swept : List (OutboxMessage P)
  swept = fail_exhausted_messages now messages

  -- The answer and the table of a claim that found `found`.
  abbrev pub claimed : Option (OutboxMessage P) → Option (OutboxClaim P) × List (OutboxMessage P)
  claimed none = (none, swept)
  claimed (some m) = (
    some (claim_of (now + lease) (lease_message (now + lease) m)),
    update_where (λ x. x.id == m.id) (lease_message (now + lease)) swept,
  )

  module _ (read : clock 0 ≡ aware now) (low : min_lease ≤ lease) (high : lease ≤ max_lease)
      (unique : Distinct (map message_id messages)) where
    claimed_lem :
        (found : Option (OutboxMessage P))
        → (
          Option.map (claim_of (now + lease)) (Option.map (lease_message (now + lease)) found),
          changed message_id sent_before sent_before-IsOrder
              (message_is_due now)
              (lease_message (now + lease))
              multiple_rows
              swept
              (rw (← ids-fail_exhausted_messages now messages) at unique)
              found,
        )
          ≡ claimed found
    claimed_lem none = refl
    claimed_lem (some m) = refl

    -- With an aware clock and a lease in range, on a table with distinct ids, `claim_due` first
    -- fails the exhausted sends. If then no message is due it claims nothing. Otherwise it claims
    -- a due message that no due message precedes, and changes that row alone.
    pub claim_message-Finds :
        (found : Option (OutboxMessage P)) × Finds sent_before (message_is_due now) swept found
        × (claim_message clock lease messages ≡ ok (claimed found))
    unfolding claim_message
    claim_message-Finds =
        let distinct = rw (← ids-fail_exhausted_messages now messages) at unique in
        let found = first_by sent_before (select_where (message_is_due now) swept) in
        let (finds, answer, table) =
          claim_first message_id sent_before sent_before-IsOrder (message_is_due now)
            (lease_message (now + lease)) multiple_rows swept distinct in
        (
          found,
          finds,
          rw (valid_lease lease low high, read, answer, table) (ap ok (claimed_lem found)),
        )
