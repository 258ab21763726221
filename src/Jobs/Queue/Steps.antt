-- ===== src/Jobs/Queue/Steps.antt =====
-- The tables that any sequence of calls, by any workers, can reach.
use gasu_schedule_bot.Base.{ℕ, ◌≡◌, String, Bool, Option, List, ok, DateTime}
use gasu_schedule_bot.Sql.{RowIds}
use gasu_schedule_bot.Jobs.Queue.{
  Job, job_id, JobClaim, JobQueue, EnqueueResult, enqueue, claim_due, succeed, fail,
}
use gasu_schedule_bot.Jobs.Queue.Effects.{enqueue-Edits, claim_due-Edits, succeed-Edits, fail-Edits}
use gasu_schedule_bot.Jobs.Queue.Edits.{
  IsValid, Edits, Edits-IsValid, HasAttempts, Edits-HasAttempts,
}

module _ {P : Type 0} (payload_eq : P → P → Bool) (ids : RowIds (job_id {P = P})) where
  -- One call that returned, by any worker with any clock, claim and arguments.
  pub data Step (jobs jobs' : List (Job P)) : Type 0 where
    enqueues :
        (clock : ℕ → DateTime) (kind key : String) (payload : P) (run_at : Option DateTime)
        (max_attempts : ℕ) (extend : Bool) (answer : EnqueueResult)
        → enqueue payload_eq ids clock kind key payload run_at max_attempts extend jobs
          ≡ ok (answer, jobs')
        → Step jobs jobs'
    claims :
        (q : JobQueue) (clock : ℕ → DateTime) (lease : ℕ) (kinds : Option (List String))
        (answer : Option (JobClaim P))
        → claim_due q clock lease kinds jobs ≡ ok (answer, jobs')
        → Step jobs jobs'
    succeeds :
        (q : JobQueue) (clock : ℕ → DateTime) (claim : JobClaim P) (answer : Bool)
        → succeed q clock claim jobs ≡ ok (answer, jobs')
        → Step jobs jobs'
    fails :
        (q : JobQueue) (clock : ℕ → DateTime) (code : String) (claim : JobClaim P) (answer : Bool)
        → fail q clock code claim jobs ≡ ok (answer, jobs')
        → Step jobs jobs'

  pub data Reach (jobs : List (Job P)) : List (Job P) → Type 0 where
    here : Reach jobs jobs
    next : {before after : List (Job P)} → Reach jobs before → Step before after → Reach jobs after

  pub Step-Edits : {jobs jobs' : List (Job P)} → Step jobs jobs' → Edits jobs jobs'
  Step-Edits (enqueues clock kind key payload run_at max_attempts extend answer h) =
      enqueue-Edits payload_eq ids clock kind key payload run_at max_attempts extend h
  Step-Edits (claims q clock lease kinds answer h) = claim_due-Edits q clock lease kinds h
  Step-Edits (succeeds q clock claim answer h) = succeed-Edits q clock claim h
  Step-Edits (fails q clock code claim answer h) = fail-Edits q clock code claim h

  -- From a valid table, whatever workers call the queue in whatever order, the table stays valid:
  -- no row passes its limit of attempts, a row carries a lease exactly while it is running, and
  -- neither an id nor an idempotency key occurs twice.
  pub Reach-IsValid : {jobs jobs' : List (Job P)} → IsValid jobs → Reach jobs jobs' → IsValid jobs'
  Reach-IsValid v here = v
  Reach-IsValid v (next r s) = Edits-IsValid (Reach-IsValid v r) (Step-Edits s)

  pub Reach-HasAttempts :
      {jobs jobs' : List (Job P)} (id n : ℕ)
      → HasAttempts id n jobs
      → Reach jobs jobs'
      → HasAttempts id n jobs'
  Reach-HasAttempts id n h here = h
  Reach-HasAttempts id n h (next r s) =
      Edits-HasAttempts id n (Reach-HasAttempts id n h r) (Step-Edits s)
