-- ===== src/Jobs/Queue/Claims.antt =====
-- What `claim_due` hands out, in terms of its own conditions and order.
use mathlib.Core.Option
use gasu_schedule_bot.Base.{
  ℕ, ◌+◌, ◌≤◌, ◌≡◌, refl, ap, String, true, false, Option, none, some, List, map, arith, ◌==◌, ok,
  DateTime, aware,
}
use gasu_schedule_bot.Sql.{select_where, update_where, first_by}
use gasu_schedule_bot.Sql.Unique.{Distinct, map-update_where}
use gasu_schedule_bot.Sql.Claim.{changed, claim_first}
use gasu_schedule_bot.Sql.First.{IsOrder, Finds}
use gasu_schedule_bot.Jobs.Policy.{min_lease, max_lease, validate_lease, multiple_rows}
use gasu_schedule_bot.Jobs.Queue.{
  Job, job_id, JobClaim, JobQueue, fail_exhausted_expired, eligible, claimed_before, lease_row,
  claim_of, claim_due,
}

pub claimed_before-IsOrder : {P : Type 0} → IsOrder (claimed_before {P = P})
claimed_before-IsOrder {P} = record { irrefl = irreflexive; asym = asymmetric; trans = transitive }
  where
    irreflexive : (a : Job P) → claimed_before a a ≡ false
    irreflexive a = unfold claimed_before in ground arith

    asymmetric : (a b : Job P) → claimed_before a b ≡ true → claimed_before b a ≡ false
    asymmetric a b h = unfold claimed_before in ground arith

    transitive :
        (a b c : Job P)
        → claimed_before b a ≡ false
        → claimed_before c b ≡ false
        → claimed_before c a ≡ false
    transitive a b c h k = unfold claimed_before in ground arith

valid_lease : (lease : ℕ) → min_lease ≤ lease → lease ≤ max_lease → validate_lease lease ≡ ok tt
unfolding validate_lease
valid_lease lease h k = ground arith

pub ids-fail_exhausted_expired :
    {P : Type 0} (now : ℕ) (kinds : Option (List String)) (jobs : List (Job P))
    → map job_id (fail_exhausted_expired now kinds jobs) ≡ map job_id jobs
unfolding fail_exhausted_expired
ids-fail_exhausted_expired now kinds jobs = map-update_where job_id _ _ (λ j. refl) jobs

module _ {P : Type 0} (q : JobQueue) (clock : ℕ → DateTime) (now lease : ℕ)
    (kinds : Option (List String)) (jobs : List (Job P)) where
  abbrev pub swept : List (Job P)
  swept = fail_exhausted_expired now kinds jobs

  -- The answer and the table of a claim that found `found`.
  abbrev pub claimed : Option (Job P) → Option (JobClaim P) × List (Job P)
  claimed none = (none, swept)
  claimed (some j) = (
    some (claim_of (now + lease) (lease_row q.worker_id now (now + lease) j)),
    update_where (λ x. x.id == j.id) (lease_row q.worker_id now (now + lease)) swept,
  )

  module _ (read : clock 0 ≡ aware now) (low : min_lease ≤ lease) (high : lease ≤ max_lease)
      (unique : Distinct (map job_id jobs)) where
    claimed_lem :
        (found : Option (Job P))
        → (
          Option.map
              (claim_of (now + lease))
              (Option.map (lease_row q.worker_id now (now + lease)) found),
          changed job_id claimed_before claimed_before-IsOrder
              (eligible now kinds)
              (lease_row q.worker_id now (now + lease))
              multiple_rows
              swept
              (rw (← ids-fail_exhausted_expired now kinds jobs) at unique)
              found,
        )
          ≡ claimed found
    claimed_lem none = refl
    claimed_lem (some j) = refl

    -- With an aware clock and a lease in range, on a table with distinct ids, `claim_due` first
    -- fails the exhausted leases. If then no row is ready it claims nothing. Otherwise it claims a
    -- ready row that no ready row precedes, and changes that row alone.
    pub claim_due-Finds :
        (found : Option (Job P)) × Finds claimed_before (eligible now kinds) swept found
        × (claim_due q clock lease kinds jobs ≡ ok (claimed found))
    unfolding claim_due
    claim_due-Finds =
        let distinct = rw (← ids-fail_exhausted_expired now kinds jobs) at unique in
        let found = first_by claimed_before (select_where (eligible now kinds) swept) in
        let (finds, answer, table) =
          claim_first job_id claimed_before claimed_before-IsOrder (eligible now kinds)
            (lease_row q.worker_id now (now + lease)) multiple_rows swept distinct in
        (
          found,
          finds,
          rw (valid_lease lease low high, read, answer, table) (ap ok (claimed_lem found)),
        )
