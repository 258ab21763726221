-- ===== src/Jobs/Tests/QueueRuns.antt =====
-- Runs of `JobQueue` and `JobWorker`, and their theorems at these runs.
use mathlib.Core.List.{Memᴰ}
use mathlib.Core.Option
use gasu_schedule_bot.Base.{
  ℕ, ◌+◌, ◌*◌, ◌<◌, ◌≡◌, refl, true, false, Option, none, some, List, [], ◌∷◌, arith, ◌==◌, ok,
  raise, aware, seconds, min, ltb, if◌then◌else◌, inr, map, All,
}
use gasu_schedule_bot.Sql.{update_where, select_where, returning, first_by, one_or_none}
use gasu_schedule_bot.Jobs.Policy.{
  validate_enqueue, validate_lease, retry_delay, idempotency_conflict,
}
use gasu_schedule_bot.Jobs.Policy.Backoff.{retry_delay_doubles}
use gasu_schedule_bot.Jobs.Queue.{
  Job, JobStatus, job_id, JobClaim, enqueue, admit_job, claim_due, claim_of, eligible,
  claimed_before, fail_exhausted_expired, succeed, fail,
}
use gasu_schedule_bot.Jobs.Queue.Edits.{IsValid}
use gasu_schedule_bot.Jobs.Queue.Choice.{Chooses, Becomes, claim_on, claim_due_picks_first}
use gasu_schedule_bot.Jobs.Queue.Steps.{here, next, claims, Reach-IsValid}
use gasu_schedule_bot.Jobs.Queue.Fencing.{fenced}
use gasu_schedule_bot.Jobs.Queue.Idempotency.{enqueue_twice, enqueue_conflict}
use gasu_schedule_bot.Sql.Numbering.{max_plus_one}
use gasu_schedule_bot.Jobs.Tests.Rows.{at_second, worker_a, worker_b, pending_job, leased_job}

abbrev jobs : List (Job ℕ)
jobs = pending_job 1 "digest" "k1" 7 ∷ []

abbrev first_lease : List (Job ℕ)
first_lease = leased_job 1 "worker-a" 0 ∷ []

abbrev second_lease : List (Job ℕ)
second_lease = leased_job 2 "worker-b" 20 ∷ []

abbrev claim_by : ℕ → ℕ → JobClaim ℕ
claim_by n s = claim_of (s * seconds + 10 * seconds) (leased_job n "any" s)

first_claim :
    claim_due worker_a (at_second 0) (10 * seconds) none jobs
    ≡ ok (some (claim_by 1 0), first_lease)
unfolding claim_due validate_lease fail_exhausted_expired eligible claimed_before select_where
    first_by update_where returning one_or_none
first_claim = refl

second_claim :
    claim_due worker_b (at_second 20) (10 * seconds) none first_lease
    ≡ ok (some (claim_by 2 20), second_lease)
unfolding claim_due validate_lease fail_exhausted_expired eligible claimed_before select_where
    first_by update_where returning one_or_none
second_claim = refl

jobs-IsValid : IsValid jobs
jobs-IsValid = record {
  rows = (
    record {
      bounded = omega arith;
      tried = λ h. cc;
      leased_until = refl;
      leased_by = refl;
      leased_at = refl;
    },
    tt,
  );
  ids = (tt, tt);
  keys = (tt, tt);
}

fenced_example :
    (1 < 2)
    × (succeed worker_a (at_second 30) (claim_by 1 0) second_lease ≡ ok (false, second_lease))
    × (fail worker_a (at_second 30) "Late" (claim_by 1 0) second_lease ≡ ok (false, second_lease))
fenced_example =
    fenced (λ a b. a == b) (max_plus_one job_id) worker_a worker_b (at_second 0) (at_second 20)
      (10 * seconds) (10 * seconds) none none (claim_by 1 0) (claim_by 2 20) jobs first_lease
      first_lease second_lease second_lease worker_a (at_second 30) (30 * seconds) "Late"
      jobs-IsValid first_claim here second_claim refl here refl

Reach-IsValid_example : IsValid first_lease
Reach-IsValid_example =
    Reach-IsValid (λ a b. a == b) (max_plus_one job_id) jobs-IsValid
      (next here
        (claims worker_a (at_second 0) (10 * seconds) none (some (claim_by 1 0)) first_claim))

-- Two rows that are due at second 9, of which the second has waited longer.
abbrev two_jobs : List (Job ℕ)
two_jobs =
    record (pending_job 1 "digest" "k1" 7) { run_at = 9 * seconds }
    ∷ pending_job 2 "digest" "k2" 8
    ∷ []

second_first :
    claim_due worker_a (at_second 9) (10 * seconds) none two_jobs
    ≡ ok (
      some (
          claim_on "worker-a"
            (9 * seconds)
            (10 * seconds)
            none
            two_jobs
            (pending_job 2 "digest" "k2" 8)),
      record (pending_job 1 "digest" "k1" 7) { run_at = 9 * seconds }
          ∷ record (pending_job 2 "digest" "k2" 8) {
            status = JobStatus.running;
            attempts = 1;
            locked_at = some (9 * seconds);
            locked_until = some (19 * seconds);
            locked_by = some "worker-a";
            updated_at = 9 * seconds;
          }
          ∷ [],
    )
unfolding claim_due validate_lease fail_exhausted_expired eligible claimed_before select_where
    first_by update_where returning one_or_none
second_first = refl

claim_due_picks_first_example :
    (found : Option (Job ℕ)) × (becomes : Job ℕ → Job ℕ) × Chooses worker_a.worker_id
      (9 * seconds)
      (10 * seconds)
      none
      two_jobs
      found
    × All
        (λ x.
          Becomes worker_a.worker_id (9 * seconds) (10 * seconds) none two_jobs found x (becomes x))
        two_jobs
    × (claim_due worker_a (at_second 9) (10 * seconds) none two_jobs
        ≡ ok (
          Option.map (claim_on worker_a.worker_id (9 * seconds) (10 * seconds) none two_jobs) found,
          map becomes two_jobs,
        ))
claim_due_picks_first_example =
    claim_due_picks_first worker_a (at_second 9) (9 * seconds) (10 * seconds) none two_jobs refl
      (omega arith) (omega arith) (((λ h. absurd (omega (arith, h))), tt), (tt, tt))

retry_delay_doubles_example :
    (retry_delay 1 5 60 ≡ min 5 60)
    × (retry_delay (2 + 2) 5 60
        ≡ (if ltb 2 30 then min (2 * retry_delay (2 + 1) 5 60) 60 else retry_delay (2 + 1) 5 60))
retry_delay_doubles_example = retry_delay_doubles 5 60 2

enqueued :
    enqueue (λ a b. a == b) (max_plus_one job_id) (at_second 0) "digest" "k1" 7 none 3 false []
    ≡ ok (record { id = 1; created = true }, jobs)
unfolding enqueue validate_enqueue admit_job
enqueued = refl

enqueue_twice_example :
    enqueue
      (λ a b. a == b)
      (max_plus_one job_id)
      (at_second 9)
      "digest"
      "k1"
      7
      (some (aware 5))
      3
      false
      jobs
    ≡ ok (record { id = 1; created = false }, jobs)
enqueue_twice_example =
    enqueue_twice (λ a b. a == b) (λ p. ground arith) "digest" "k1" 7 (max_plus_one job_id)
      (max_plus_one job_id) (at_second 0) (at_second 9) none (some (aware 5)) 3 5 (9 * seconds)
      (9 * seconds) [] enqueued refl refl refl

enqueue_conflict_example :
    enqueue (λ a b. a == b) (max_plus_one job_id) (at_second 9) "digest" "k1" 8 none 3 true jobs
    ≡ raise idempotency_conflict
unfolding validate_enqueue
enqueue_conflict_example =
    enqueue_conflict (λ a b. a == b) (pending_job 1 "digest" "k1" 7) (max_plus_one job_id)
      (at_second 9) "digest" 8 none 3 (9 * seconds) (9 * seconds) (9 * seconds) true jobs
      (Memᴰ.head refl) (tt, tt) (inr refl) refl refl refl refl
