-- ===== src/Jobs/Tests/OutboxRuns.antt =====
-- Runs of the outbox and of both workers, and their theorems at these runs.
use mathlib.Core.List.{Memᴰ}
use mathlib.Core.Option
use gasu_schedule_bot.Base.{
  ℕ, ◌*◌, ◌≡◌, refl, String, Bool-cases, inl, inr, Option, none, some, List, [], ◌∷◌, arith, ◌==◌,
  ok, seconds, str_eq, map, All,
}
use gasu_schedule_bot.Base.Int.{ℤ}
use gasu_schedule_bot.Sql.{update_where, select_where, returning, first_by, one_or_none}
use gasu_schedule_bot.Sql.First.{Finds}
use gasu_schedule_bot.Jobs.Policy.{validate_lease}
use gasu_schedule_bot.Jobs.Queue.{Job, JobClaim, eligible, claimed_before}
use gasu_schedule_bot.Jobs.Outbox.{
  OutboxMessage, OutboxStatus, message_id, message_is_due, sent_before, claim_message,
  fail_exhausted_messages, mark_sent, holds,
}
use gasu_schedule_bot.Jobs.Outbox.Choice.{Chooses, Becomes, claim_on, claim_message_picks_first}
use gasu_schedule_bot.Jobs.Outbox.Sent.{Holds, here, next, claims, Reach-Holds}
use gasu_schedule_bot.Jobs.Worker.{returned, raised, Handler, handler_for, send_once, worked}
use gasu_schedule_bot.Jobs.Worker.Run.{swept_jobs, Round, run_once-Round}
use gasu_schedule_bot.Sql.Numbering.{max_plus_one}
use gasu_schedule_bot.Jobs.Tests.Rows.{at_second, worker_a, pending_job}

-- A message that becomes due at second five.
abbrev queued : ℕ → OutboxMessage ℕ
queued id = record {
  id = id;
  job_id = none;
  kind = "reminder";
  idempotency_key = "r1";
  chat_id = none;
  payload = 7;
  status = OutboxStatus.pending;
  available_at = 5 * seconds;
  attempts = 0;
  max_attempts = 3;
  last_error = none;
  telegram_message_id = none;
  created_at = 0;
  sent_at = none;
}

abbrev delivered : OutboxMessage ℕ
delivered = record (queued 1) {
  status = OutboxStatus.sent;
  available_at = 6 * seconds;
  attempts = 1;
  telegram_message_id = some (ℤ.pos 900);
  sent_at = some (6 * seconds);
}

claim_message_picks_first_example :
    (found : Option (OutboxMessage ℕ)) × (becomes : OutboxMessage ℕ → OutboxMessage ℕ) × Chooses
      (9 * seconds)
      (10 * seconds)
      (queued 2 ∷ queued 1 ∷ [])
      found
    × All
        (λ x. Becomes (9 * seconds) (10 * seconds) (queued 2 ∷ queued 1 ∷ []) found x (becomes x))
        (queued 2 ∷ queued 1 ∷ [])
    × (claim_message (at_second 9) (10 * seconds) (queued 2 ∷ queued 1 ∷ [])
        ≡ ok (
          Option.map (claim_on (9 * seconds) (10 * seconds) (queued 2 ∷ queued 1 ∷ [])) found,
          map becomes (queued 2 ∷ queued 1 ∷ []),
        ))
claim_message_picks_first_example =
    claim_message_picks_first (at_second 9) (9 * seconds) (10 * seconds) (queued 2 ∷ queued 1 ∷ [])
      refl (omega arith) (omega arith) (((λ h. absurd (omega (arith, h))), tt), (tt, tt))

nothing_due :
    claim_message (at_second 30) (10 * seconds) (delivered ∷ []) ≡ ok (none, delivered ∷ [])
unfolding claim_message validate_lease fail_exhausted_messages message_is_due sent_before
    select_where first_by update_where returning one_or_none
nothing_due = refl

Reach-Holds_example : Holds delivered (delivered ∷ [])
Reach-Holds_example =
    Reach-Holds (λ a b. a == b) (max_plus_one message_id) delivered refl
      (record { present = Memᴰ.head refl; alone = (λ h. refl, tt) })
      (next here (claims (at_second 30) (10 * seconds) none nothing_due))

-- A sender that gets the Telegram id 900.
sent_once :
    send_once
      (λ name. name)
      (record { retry_base = 5 * seconds; retry_cap = 60 * seconds })
      (10 * seconds)
      (λ claim messages. (returned (some (ℤ.pos 900)), messages))
      (at_second 5)
      (at_second 6)
      (queued 1 ∷ [])
    ≡ ok (worked, delivered ∷ [])
unfolding send_once mark_sent holds claim_message validate_lease fail_exhausted_messages
    message_is_due sent_before select_where first_by update_where returning one_or_none
sent_once = refl

-- One handler, for digests, that always raises.
abbrev times_out : Handler ℕ
times_out claim jobs = (raised "TimeoutError", jobs)

abbrev failing : List (String × Handler ℕ)
failing = ("digest", times_out) ∷ []

abbrev names : String → String
names name = name

abbrev job_table : List (Job ℕ)
job_table = pending_job 1 "digest" "k1" 7 ∷ pending_job 2 "other" "k2" 8 ∷ []

digest_fails :
    (kind : String) (h : Handler ℕ)
    → handler_for kind failing ≡ some h
    → (claim : JobClaim ℕ) (jobs : List (Job ℕ)) → h claim jobs ≡ (raised "TimeoutError", jobs)
digest_fails kind h e claim jobs = elim (Bool-cases (str_eq kind "digest")) [
  | inl same ↦ let is_h : times_out ≡ h = cc (rw same at e) in rw (← is_h) refl
  | inr other ↦ absurd (ground (arith, rw other at e))
]

run_once-Round_example :
    (found : Option (Job ℕ)) × Finds claimed_before
      (eligible 0 (some ("digest" ∷ [])))
      (swept_jobs names worker_a
        (10 * seconds)
        failing
        (at_second 0)
        (at_second 1)
        0
        (1 * seconds)
        job_table)
      found
    × Round names worker_a
        (10 * seconds)
        failing
        (at_second 0)
        (at_second 1)
        0
        (1 * seconds)
        job_table
        (λ j. raised "TimeoutError")
        found
run_once-Round_example =
    run_once-Round names worker_a (10 * seconds) failing (at_second 0) (at_second 1) 0 (1 * seconds)
      job_table refl refl (omega arith) (omega arith) ((λ h. ground (arith, h), tt), (tt, tt))
      (λ j. raised "TimeoutError") (λ j h e. digest_fails j.kind h e _ _)
