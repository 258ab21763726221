-- ===== src/Jobs/Queue/Choice.antt =====
-- Which row `claim_due` takes, and what it makes of every row of the table.
use mathlib.Core.List.{Memᴰ}
use mathlib.Core.Option
use gasu_schedule_bot.Base.{
  ℕ, ◌+◌, ◌≤◌, ◌≡◌, ◌≢◌, refl, ap, ◌∙◌, String, true, false, Option, none, some, List, map, arith,
  All, All-mono, Bool-cases, inl, inr, ok, DateTime, aware,
}
use gasu_schedule_bot.Sql.Unique.{Distinct}
use gasu_schedule_bot.Sql.First.{Finds}
use gasu_schedule_bot.Sql.Sweep.{
  row_after, table_after, table_after-map, found_before_sweep, Updated, rows-Updated,
}
use gasu_schedule_bot.Jobs.Policy.{min_lease, max_lease}
use gasu_schedule_bot.Jobs.Queue.{
  JobStatus, Job, job_id, JobClaim, JobQueue, exhausted_expired, expire, fail_exhausted_expired,
  eligible, claimed_before, lease_row, claim_due,
}
use gasu_schedule_bot.Jobs.Queue.Claims.{claimed, claim_due-Finds}
use gasu_schedule_bot.Jobs.Queue.Ready.{
  Ready, Exhausted, NoLater, eligible-Ready, Ready-eligible, expired-Exhausted, Exhausted-expired,
  eligible-not_expired, expire-not_eligible, claimed_before-NoLater,
}

module _ {P : Type 0} (worker_id : String) (now lease : ℕ) (kinds : Option (List String))
    (jobs : List (Job P)) where
  -- A ready row of the table that no ready row comes before.
  pub record Chosen (j : Job P) : Type 0 where
    pub row : Memᴰ j jobs
    pub ready : Ready now kinds j
    pub first : All (λ x. Ready now kinds x → NoLater j x) jobs

  -- The row that a claim takes, or none where no row is ready.
  abbrev pub Chooses : Option (Job P) → Type 0
  Chooses none = All (λ x. ¬ Ready now kinds x) jobs
  Chooses (some j) = Chosen j

  -- The row `x` becomes `y`: the chosen one is leased to the worker, an exhausted one has failed, and
  -- any other is as it was.
  pub record Becomes (found : Option (Job P)) (x y : Job P) : Type 0 where
    pub leased :
        found ≡ some x
        → y ≡ record x {
          status = JobStatus.running;
          attempts = x.attempts + 1;
          locked_at = some now;
          locked_until = some (now + lease);
          locked_by = some worker_id;
          updated_at = now;
          last_error = none;
        }
    pub failed :
        Exhausted now kinds x
        → y ≡ record x {
          status = JobStatus.failed;
          completed_at = some now;
          updated_at = now;
          locked_at = none;
          locked_until = none;
          locked_by = none;
          last_error = some "LeaseExpired";
        }
    pub kept : ¬ Exhausted now kinds x → found ≢ some x → y ≡ x

  -- What the worker is handed of the chosen row.
  abbrev pub claim_on : Job P → JobClaim P
  claim_on j = record {
    id = j.id;
    kind = j.kind;
    idempotency_key = j.idempotency_key;
    payload = j.payload;
    attempt = j.attempts + 1;
    max_attempts = j.max_attempts;
    leased_until = now + lease;
  }

  abbrev after_claim : Option (Job P) → Job P → Job P
  after_claim =
      row_after job_id claimed_before (eligible now kinds) (exhausted_expired now kinds)
        (expire now) (lease_row worker_id now (now + lease))

  Finds-Chooses :
      (found : Option (Job P))
      → Finds claimed_before (eligible now kinds) jobs found
      → Chooses found
  Finds-Chooses none n =
      All-mono (λ x. eligible now kinds x ≡ false) (λ x. ¬ Ready now kinds x)
        (λ x no ready.
          let yes = Ready-eligible now kinds x ready in absurd (ground (arith, no, yes)))
        jobs n.fails
  Finds-Chooses (some j) f =
      let ready = eligible-Ready now kinds j f.passes in
      record {
        row = f.row;
        ready = ready;
        first =
            All-mono (λ x. eligible now kinds x ≡ true → claimed_before x j ≡ false)
              (λ x. Ready now kinds x → NoLater j x)
              (λ x least r.
                claimed_before-NoLater now kinds j x ready r (least (Ready-eligible now kinds x r)))
              jobs f.least;
      }

  Updated-Becomes :
      (found : Option (Job P)) (x : Job P)
      → Updated job_id claimed_before
          (eligible now kinds)
          (exhausted_expired now kinds)
          (expire now)
          (lease_row worker_id now (now + lease))
          found
          x
      → Becomes found x (after_claim found x)
  Updated-Becomes found x u = record {
    leased = u.claimed;
    failed = (λ e. u.failed (Exhausted-expired now kinds x e));
    kept = (λ no. elim (Bool-cases (exhausted_expired now kinds x)) [
      | inl e ↦ absurd (no (expired-Exhausted now kinds x e))
      | inr e ↦ u.kept e
    ]);
  }

module _ {P : Type 0} (q : JobQueue) (clock : ℕ → DateTime) (now lease : ℕ)
    (kinds : Option (List String)) (jobs : List (Job P)) where
  claimed-table_after :
      (found : Option (Job P))
      → claimed q clock now lease kinds jobs found ≡ (
        Option.map (claim_on q.worker_id now lease kinds jobs) found,
        table_after job_id claimed_before
            (eligible now kinds)
            (exhausted_expired now kinds)
            (expire now)
            (lease_row q.worker_id now (now + lease))
            found
            jobs,
      )
  unfolding fail_exhausted_expired
  claimed-table_after none = refl
  claimed-table_after (some j) = refl

  -- With an aware clock and a lease in range, on a table with distinct ids, `claim_due` hands out a
  -- ready row of the table that no ready row comes before, or nothing where no row is ready. The row
  -- that it hands out is leased to the worker, every row whose last attempt has lost its lease has
  -- failed, and every other row is as it was.
  -- A row is ready with attempts left, a kind that is asked for, and either pending with its time
  -- come or running with its lease over; pending rows come first, then the earlier time, then the
  -- lower id.
  pub claim_due_picks_first :
      clock 0 ≡ aware now
      → min_lease ≤ lease
      → lease ≤ max_lease
      → Distinct (map job_id jobs)
      → (found : Option (Job P)) × (becomes : Job P → Job P) × Chooses q.worker_id now lease kinds
          jobs found
        × All (λ x. Becomes q.worker_id now lease kinds jobs found x (becomes x)) jobs
        × (claim_due q clock lease kinds jobs
            ≡ ok (Option.map (claim_on q.worker_id now lease kinds jobs) found, map becomes jobs))
  claim_due_picks_first read low high unique =
      let (found, swept_finds, answer) =
        claim_due-Finds q clock now lease kinds jobs read low high unique in
      let leased = lease_row q.worker_id now (now + lease) in
      let apart = eligible-not_expired now kinds in
      let finds =
        found_before_sweep job_id claimed_before (eligible now kinds) (exhausted_expired now kinds)
          (expire now) leased apart (expire-not_eligible now kinds) (λ x. refl) found jobs
          (unfold fail_exhausted_expired in swept_finds) in
      let table =
        table_after-map job_id claimed_before (eligible now kinds) (exhausted_expired now kinds)
          (expire now) leased found jobs in
      (
        found,
        after_claim q.worker_id now lease kinds jobs found,
        Finds-Chooses q.worker_id now lease kinds jobs found finds,
        All-mono _ _ (Updated-Becomes q.worker_id now lease kinds jobs found) jobs (
            rows-Updated job_id claimed_before (eligible now kinds) (exhausted_expired now kinds)
              (expire now) leased apart (expire-not_eligible now kinds) (λ x. refl) found jobs
              unique finds),
        answer
            ∙ ap ok (claimed-table_after found)
            ∙ ap (λ t. ok (Option.map (claim_on q.worker_id now lease kinds jobs) found, t)) table,
      )
