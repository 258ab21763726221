-- ===== src/Jobs/Outbox.antt =====
-- `OutboxQueue` of src/szs_hub/jobs/queue.py, on the table of its `OutboxMessage` rows, in the
-- manner of the job queue. `available_at` is the next attempt's time, and while a row is being
-- sent it is the end of the lease.
pub mod Claims
pub mod Ready
pub mod Choice
pub mod Sent
use mathlib.Core.Option
use gasu_schedule_bot.Base.{
  ℕ, ◌+◌, String, Bool, true, false, ◌&&◌, ◌||◌, not, Option, none, some, List, [], ◌∷◌, ◌++◌, ltb,
  leb, ◌==◌, if◌then◌else◌, str_eq, option_eq, exists, ok, raise, ◌>>=◌, ◌>>◌, DateTime,
}
use gasu_schedule_bot.Base.Int.{ℤ, int_eq}
use gasu_schedule_bot.Sql.{
  select_where, update_where, returning, first_by, one_or_none, candidate_row, RowIds,
}
use gasu_schedule_bot.Jobs.Policy.{
  Outcome, lost_row, idempotency_conflict, multiple_rows, aware_instant, validate_enqueue,
  validate_retry_policy, validate_lease, retry_delay,
}
use gasu_schedule_bot.Jobs.Queue.{EnqueueResult}

pub data OutboxStatus : Type 0 where
  pending sending sent failed cancelled : OutboxStatus

abbrev pub is_pending : OutboxStatus → Bool
is_pending OutboxStatus.pending = true
is_pending _ = false

abbrev pub is_sending : OutboxStatus → Bool
is_sending OutboxStatus.sending = true
is_sending _ = false

pub record OutboxMessage (P : Type 0) : Type 0 where
  pub id : ℕ
  pub job_id : Option ℕ
  pub kind : String
  pub idempotency_key : String
  pub chat_id : Option ℤ
  pub payload : P
  pub status : OutboxStatus
  pub available_at : ℕ
  pub attempts : ℕ
  pub max_attempts : ℕ
  pub last_error : Option String
  pub telegram_message_id : Option ℤ
  pub created_at : ℕ
  pub sent_at : Option ℕ

pub record OutboxClaim (P : Type 0) : Type 0 where
  pub id : ℕ
  pub kind : String
  pub idempotency_key : String
  pub chat_id : Option ℤ
  pub payload : P
  pub attempt : ℕ
  pub max_attempts : ℕ
  pub leased_until : ℕ

pub record OutboxQueue : Type 0 where
  pub retry_base : ℕ
  pub retry_cap : ℕ

-- `OutboxQueue.__init__`
unfoldable pub new_outbox : ℕ → ℕ → Outcome OutboxQueue
new_outbox retry_base retry_cap = do
  validate_retry_policy retry_base retry_cap
  ok (record { retry_base = retry_base; retry_cap = retry_cap })

module _ {P : Type 0} where
  abbrev pub message_id : OutboxMessage P → ℕ
  message_id m = m.id

  abbrev pub has_key : String → OutboxMessage P → Bool
  has_key key m = str_eq m.idempotency_key key

  abbrev pub first_row : List (OutboxMessage P) → Option (OutboxMessage P)
  first_row [] = none
  first_row (m ∷ ms) = some m

  module _ (payload_eq : P → P → Bool) where
    abbrev pub is_same_operation : OutboxMessage P → OutboxMessage P → Bool
    is_same_operation existing row =
        str_eq existing.kind row.kind
        && (payload_eq existing.payload row.payload
            && (option_eq int_eq existing.chat_id row.chat_id
                && option_eq ◌==◌ existing.job_id row.job_id))

    abbrev pub settle_existing :
        OutboxMessage P
        → Option (OutboxMessage P)
        → List (OutboxMessage P)
        → Outcome (EnqueueResult × List (OutboxMessage P))
    settle_existing row none messages = raise lost_row
    settle_existing row (some existing) messages =
        if is_same_operation existing row
        then ok (record { id = existing.id; created = false }, messages)
        else raise idempotency_conflict

    -- The transaction of `enqueue`, as that of the job queue.
    unfoldable pub admit_message :
        OutboxMessage P → List (OutboxMessage P) → Outcome (EnqueueResult × List (OutboxMessage P))
    admit_message row messages =
        if exists (has_key row.idempotency_key) messages
        then settle_existing row (first_row (select_where (has_key row.idempotency_key) messages))
            messages
        else ok (record { id = row.id; created = true }, messages ++ row ∷ [])

    unfoldable pub enqueue_message :
        RowIds message_id
        → (ℕ → DateTime)
        → String
        → String
        → P
        → Option ℤ
        → Option ℕ
        → Option DateTime
        → ℕ
        → List (OutboxMessage P)
        → Outcome (EnqueueResult × List (OutboxMessage P))
    enqueue_message ids clock kind key payload chat_id job_id available_at max_attempts messages =
        do
          validate_enqueue kind key max_attempts
          timestamp ← aware_instant (Option.get_or available_at (clock 0))
          created_at ← aware_instant (clock 1)
          admit_message
              (record {
                id = ids.next messages;
                job_id = job_id;
                kind = kind;
                idempotency_key = key;
                chat_id = chat_id;
                payload = payload;
                status = OutboxStatus.pending;
                available_at = timestamp;
                attempts = 0;
                max_attempts = max_attempts;
                last_error = none;
                telegram_message_id = none;
                created_at = created_at;
                sent_at = none;
              })
              messages

  abbrev pub exhausted_expired : ℕ → OutboxMessage P → Bool
  exhausted_expired now m =
      is_sending m.status && (leb m.available_at now && leb m.max_attempts m.attempts)

  abbrev pub expire : ℕ → OutboxMessage P → OutboxMessage P
  expire now m = record m {
    status = OutboxStatus.failed;
    available_at = now;
    last_error = some "LeaseExpired";
  }

  -- `_fail_exhausted_expired`
  unfoldable pub fail_exhausted_messages : ℕ → List (OutboxMessage P) → List (OutboxMessage P)
  fail_exhausted_messages now = update_where (exhausted_expired now) (expire now)

  -- The `eligible` condition of `claim_due`.
  unfoldable pub message_is_due : ℕ → OutboxMessage P → Bool
  message_is_due now m =
      ltb m.attempts m.max_attempts
      && (leb m.available_at now && (is_pending m.status || is_sending m.status))

  abbrev pub rank : OutboxMessage P → ℕ
  rank m = if is_pending m.status then 0 else 1

  unfoldable pub sent_before : OutboxMessage P → OutboxMessage P → Bool
  sent_before a b =
      ltb (rank a) (rank b)
      || rank a == rank b
        && (ltb a.available_at b.available_at || a.available_at == b.available_at && ltb a.id b.id)

  abbrev pub lease_message : ℕ → OutboxMessage P → OutboxMessage P
  lease_message leased_until m = record m {
    status = OutboxStatus.sending;
    attempts = m.attempts + 1;
    available_at = leased_until;
    last_error = none;
  }

  abbrev pub claim_of : ℕ → OutboxMessage P → OutboxClaim P
  claim_of leased_until m = record {
    id = m.id;
    kind = m.kind;
    idempotency_key = m.idempotency_key;
    chat_id = m.chat_id;
    payload = m.payload;
    attempt = m.attempts;
    max_attempts = m.max_attempts;
    leased_until = leased_until;
  }

  unfoldable pub claim_message :
      (ℕ → DateTime)
      → ℕ
      → List (OutboxMessage P)
      → Outcome (Option (OutboxClaim P) × List (OutboxMessage P))
  claim_message clock lease messages = do
    validate_lease lease
    now ← aware_instant (clock 0)
    let leased_until = now + lease
    let swept = fail_exhausted_messages now messages
    let candidate = first_by sent_before (select_where (message_is_due now) swept)
    let chosen =
        λ (m : OutboxMessage P). candidate_row message_id candidate m && message_is_due now m
    row ← one_or_none multiple_rows (returning chosen (lease_message leased_until) swept)
    ok (
      Option.map (claim_of leased_until) row,
      update_where chosen (lease_message leased_until) swept,
    )

  unfoldable pub holds : OutboxClaim P → OutboxMessage P → Bool
  holds claim m = m.id == claim.id && (is_sending m.status && m.attempts == claim.attempt)

  abbrev pub any_row : List (OutboxMessage P) → Bool
  any_row [] = false
  any_row (m ∷ ms) = true

  abbrev pub sent_row : ℕ → Option ℤ → OutboxMessage P → OutboxMessage P
  sent_row now telegram_message_id m = record m {
    status = OutboxStatus.sent;
    sent_at = some now;
    telegram_message_id = telegram_message_id;
    available_at = now;
    last_error = none;
  }

  -- `sent`
  unfoldable pub mark_sent :
      (ℕ → DateTime)
      → OutboxClaim P
      → Option ℤ
      → List (OutboxMessage P)
      → Outcome (Bool × List (OutboxMessage P))
  mark_sent clock claim telegram_message_id messages = do
    now ← aware_instant (clock 0)
    let change = sent_row now telegram_message_id
    ok (
      any_row (returning (holds claim) change messages),
      update_where (holds claim) change messages,
    )

  abbrev pub failed_row :
      OutboxQueue → String → OutboxClaim P → ℕ → OutboxMessage P → OutboxMessage P
  failed_row q error_code claim now m =
      let terminal = leb claim.max_attempts claim.attempt in
      record m {
        status = if terminal then OutboxStatus.failed else OutboxStatus.pending;
        available_at =
            if terminal then now else now + retry_delay claim.attempt q.retry_base q.retry_cap;
        last_error = some error_code;
      }

  -- `fail`
  unfoldable pub mark_failed :
      OutboxQueue
      → (ℕ → DateTime)
      → String
      → OutboxClaim P
      → List (OutboxMessage P)
      → Outcome (Bool × List (OutboxMessage P))
  mark_failed q clock error_code claim messages = do
    now ← aware_instant (clock 0)
    let change = failed_row q error_code claim now
    ok (
      any_row (returning (holds claim) change messages),
      update_where (holds claim) change messages,
    )
