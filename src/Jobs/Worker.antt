-- ===== src/Jobs/Worker.antt =====
-- `run_once` of the two workers of src/szs_hub/jobs/worker.py. A handler is a function of the
-- claim and the table, since it may call the queue itself. Cancellation is not an `Exception`: it
-- leaves `run_once` at once, and the claim stays leased.
pub mod Run
use mathlib.Core.Option
use gasu_schedule_bot.Base.{
  ℕ, String, Bool, true, false, Option, none, some, List, [], ◌∷◌, map, if◌then◌else◌, str_eq, ok,
  raise, ◌>>=◌, DateTime,
}
use gasu_schedule_bot.Base.Int.{ℤ}
use gasu_schedule_bot.Jobs.Policy.{Outcome}
use gasu_schedule_bot.Jobs.Queue.{Job, JobClaim, JobQueue, claim_due, succeed, fail}
use gasu_schedule_bot.Jobs.Outbox.{
  OutboxMessage, OutboxClaim, OutboxQueue, claim_message, mark_sent, mark_failed,
}

-- How a handler ends; an exception is the name of its type.
pub data Ending (A : Type 0) : Type 0 where
  returned : A → Ending A
  raised : String → Ending A
  cancelled : Ending A

-- What `run_once` reports: whether a row was claimed, or that it was cancelled on the way.
pub data Report : Type 0 where
  worked idle stopped : Report

abbrev pub Handler : Type 0 → Type 0
Handler P = JobClaim P → List (Job P) → Ending (Unit {0}) × List (Job P)

abbrev pub Sender : Type 0 → Type 0
Sender P = OutboxClaim P → List (OutboxMessage P) → Ending (Option ℤ) × List (OutboxMessage P)

-- The mapping of handlers by kind.
module _ {H : Type 0} where
  abbrev pub handler_for : String → List (String × H) → Option H
  handler_for kind [] = none
  handler_for kind ((k, h) ∷ handlers) = if str_eq kind k then some h else handler_for kind handlers

  abbrev pub kinds_of : List (String × H) → List String
  kinds_of [] = []
  kinds_of ((k, h) ∷ handlers) = k ∷ kinds_of handlers

module _ {P : Type 0} where
  abbrev pub call_handler :
      Option (Handler P) → JobClaim P → List (Job P) → Ending (Unit {0}) × List (Job P)
  call_handler none claim jobs = (raised "UnknownJobKindError", jobs)
  call_handler (some handler) claim jobs = handler claim jobs

  module _ (safe_error_code : String → String) (q : JobQueue) (lease : ℕ)
      (handlers : List (String × Handler P)) where
    -- The `try` of `run_once`: `fail` after an exception, `succeed` otherwise.
    abbrev pub finish :
        (ℕ → DateTime)
        → JobClaim P
        → Ending (Unit {0}) × List (Job P)
        → Outcome (Report × List (Job P))
    finish clock claim (returned _, jobs) = do
      (_, jobs') ← succeed q clock claim jobs
      ok (worked, jobs')
    finish clock claim (raised error, jobs) = do
      (_, jobs') ← fail q clock (safe_error_code error) claim jobs
      ok (worked, jobs')
    finish clock claim (cancelled, jobs) = ok (stopped, jobs)

    abbrev pub process :
        (ℕ → DateTime) → Option (JobClaim P) × List (Job P) → Outcome (Report × List (Job P))
    process clock (none, jobs) = ok (idle, jobs)
    process clock (some claim, jobs) =
        finish clock claim (call_handler (handler_for claim.kind handlers) claim jobs)

    -- The first clock is read by the claim, the second by the completion.
    unfoldable pub run_once :
        (ℕ → DateTime) → (ℕ → DateTime) → List (Job P) → Outcome (Report × List (Job P))
    run_once claim_clock clock jobs = do
      claimed ← claim_due q claim_clock lease (some (kinds_of handlers)) jobs
      process clock claimed

  module _ (safe_error_code : String → String) (q : OutboxQueue) (lease : ℕ) (send : Sender P) where
    abbrev pub finish_send :
        (ℕ → DateTime)
        → OutboxClaim P
        → Ending (Option ℤ) × List (OutboxMessage P)
        → Outcome (Report × List (OutboxMessage P))
    finish_send clock claim (returned message_id, messages) = do
      (_, messages') ← mark_sent clock claim message_id messages
      ok (worked, messages')
    finish_send clock claim (raised error, messages) = do
      (_, messages') ← mark_failed q clock (safe_error_code error) claim messages
      ok (worked, messages')
    finish_send clock claim (cancelled, messages) = ok (stopped, messages)

    abbrev pub process_send :
        (ℕ → DateTime)
        → Option (OutboxClaim P) × List (OutboxMessage P)
        → Outcome (Report × List (OutboxMessage P))
    process_send clock (none, messages) = ok (idle, messages)
    process_send clock (some claim, messages) = finish_send clock claim (send claim messages)

    -- `OutboxWorker.run_once`
    unfoldable pub send_once :
        (ℕ → DateTime)
        → (ℕ → DateTime)
        → List (OutboxMessage P)
        → Outcome (Report × List (OutboxMessage P))
    send_once claim_clock clock messages = do
      claimed ← claim_message claim_clock lease messages
      process_send clock claimed
