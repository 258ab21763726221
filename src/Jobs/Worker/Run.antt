-- ===== src/Jobs/Worker/Run.antt =====
-- One round of the job worker.
use gasu_schedule_bot.Base.{
  ℕ, ◌+◌, ◌≤◌, ◌≡◌, refl, ap, String, true, Option, none, some, List, [], ◌∷◌, map, arith, All,
  exists, str_eq, eq_iff, is_some, ok, DateTime, aware, ◌==◌, ==_iff, Bool-cases, inl, inr,
}
use gasu_schedule_bot.Sql.{update_where}
use gasu_schedule_bot.Sql.Unique.{Distinct, same_row}
use gasu_schedule_bot.Sql.First.{Finds}
use gasu_schedule_bot.Jobs.Policy.{min_lease, max_lease}
use gasu_schedule_bot.Jobs.Queue.{
  Job, job_id, JobClaim, JobQueue, eligible, claimed_before, lease_row, claim_of, claim_due, holds,
  succeed, succeed_row, fail, fail_row, fail_exhausted_expired,
}
use gasu_schedule_bot.Jobs.Queue.Claims.{claimed, claim_due-Finds, ids-fail_exhausted_expired}
use gasu_schedule_bot.Jobs.Worker.{
  Ending, returned, raised, cancelled, Report, worked, idle, stopped, Handler, handler_for,
  kinds_of, run_once, finish,
}

-- A kind among those that the worker registers has a handler.
registered :
    {H : Type 0} (kind : String) (handlers : List (String × H))
    → exists (λ k. str_eq kind k) (kinds_of handlers) ≡ true
    → (h : H) × (handler_for kind handlers ≡ some h)
registered kind [] e = absurd (ground (arith, e))
registered kind ((k, h) ∷ handlers) e = elim (Bool-cases (str_eq kind k)) [
  | inl same ↦ (h, rw same)
  | inr other ↦ let (g, found) = registered kind handlers (rw other at e) in (g, rw other found)
]

eligible_kind :
    {P : Type 0} (now : ℕ) (kinds : List String) (j : Job P)
    → eligible now (some kinds) j ≡ true
    → exists (λ k. str_eq j.kind k) kinds ≡ true
unfolding eligible
eligible_kind now kinds j e = ground (arith, e)

module _ {P : Type 0} (q : JobQueue) (j : Job P) (now until : ℕ) (change : Job P → Job P) where
  abbrev leased : Job P → Job P
  leased = lease_row q.worker_id now until

  abbrev claim : JobClaim P
  claim = claim_of until (lease_row q.worker_id now until j)

  -- The claim that was just made is the one that the row holds: completing it changes that row.
  complete_fresh :
      (rows : List (Job P))
      → All (λ x. x.id ≡ j.id → x ≡ j) rows
      → update_where (holds q claim) change (update_where (λ x. x.id == j.id) leased rows)
        ≡ update_where (λ x. x.id == j.id) (λ x. change (leased x)) rows
  unfolding update_where holds
  complete_fresh [] h = refl
  complete_fresh (x ∷ rows) h = elim (Bool-cases (x.id == j.id)) [
    | inl e ↦ ground (
      arith,
      e,
      ap (λ (y : Job P). y.attempts) (h.0 ((==_iff x.id j.id).0 e)),
      (eq_iff q.worker_id q.worker_id).1 refl,
      complete_fresh rows h.1,
    )
    | inr e ↦ ground (arith, e, complete_fresh rows h.1)
  ]

module _ {P : Type 0} (safe_error_code : String → String) (q : JobQueue) (lease : ℕ)
    (handlers : List (String × Handler P)) (claim_clock clock : ℕ → DateTime) (now later : ℕ)
    (jobs : List (Job P)) where
  abbrev pub swept_jobs : List (Job P)
  swept_jobs = fail_exhausted_expired now (some (kinds_of handlers)) jobs

  abbrev pub leased_job : Job P → Job P
  leased_job = lease_row q.worker_id now (now + lease)

  abbrev pub job_claim : Job P → JobClaim P
  job_claim j = claim_of (now + lease) (leased_job j)

  abbrev pub with_row : (Job P → Job P) → Job P → List (Job P)
  with_row change j = update_where (λ x. x.id == j.id) change swept_jobs

  -- The outcome of a round, by how the handler of the row `j` ended.
  abbrev pub after_handler : Job P → Ending (Unit {0}) → Report × List (Job P)
  after_handler j (returned _) = (worked, with_row (λ x. succeed_row later (leased_job x)) j)
  after_handler j (raised e) =
      (worked, with_row (λ x. fail_row q (safe_error_code e) (job_claim j) later (leased_job x)) j)
  after_handler j cancelled = (stopped, with_row leased_job j)

  abbrev pub Round : (Job P → Ending (Unit {0})) → Option (Job P) → Type 0
  Round ends none =
      run_once safe_error_code q lease handlers claim_clock clock jobs ≡ ok (idle, swept_jobs)
  Round ends (some j) =
      (is_some (handler_for j.kind handlers) ≡ true)
      × (run_once safe_error_code q lease handlers claim_clock clock jobs
          ≡ ok (after_handler j (ends j)))

  module _ (claim_read : claim_clock 0 ≡ aware now) (read : clock 0 ≡ aware later)
      (low : min_lease ≤ lease) (high : lease ≤ max_lease) (unique : Distinct (map job_id jobs))
      (ends : Job P → Ending (Unit {0}))
      (apart : (j : Job P) (h : Handler P)
        → handler_for j.kind handlers ≡ some h
        → h (job_claim j) (with_row leased_job j) ≡ (ends j, with_row leased_job j)) where
    finished :
        (j : Job P)
        → All (λ x. x.id ≡ j.id → x ≡ j) swept_jobs
        → (e : Ending (Unit {0}))
        → finish safe_error_code q lease handlers clock (job_claim j) (e, with_row leased_job j)
          ≡ ok (after_handler j e)
    unfolding succeed fail
    finished j same (returned tt) =
        rw read (rw (complete_fresh q j now (now + lease) (succeed_row later) swept_jobs same))
    finished j same (raised e) = rw read (
        rw (
          complete_fresh q j now (now + lease) (fail_row q (safe_error_code e) (job_claim j) later)
            swept_jobs same))
    finished j same cancelled = refl

    Round-of :
        (found : Option (Job P))
        → Finds claimed_before (eligible now (some (kinds_of handlers))) swept_jobs found
        → claim_due q claim_clock lease (some (kinds_of handlers)) jobs
          ≡ ok (claimed q claim_clock now lease (some (kinds_of handlers)) jobs found)
        → Round ends found
    unfolding run_once
    Round-of none n c = rw c
    Round-of (some j) f c =
        let (h, known) =
          registered j.kind handlers (eligible_kind now (kinds_of handlers) j f.passes) in
        let ids = ids-fail_exhausted_expired now (some (kinds_of handlers)) jobs in
        let same = same_row job_id j swept_jobs f.row (rw (← ids) at unique) in
        (rw known, rw (c, known, apart j h known) (finished j same (ends j)))

    -- On a table with distinct ids, with aware clocks and a lease in range, and with handlers that
    -- leave the job table alone, one round fails the exhausted leases of the registered kinds and
    -- claims the first ready row of those kinds, if one is ready. The kind of that row has a
    -- handler. If the handler returns, exactly that row is now succeeded; if it raises, exactly
    -- that row is retried or failed; if it is cancelled, the row stays leased.
    pub run_once-Round :
        (found : Option (Job P)) × Finds claimed_before
          (eligible now (some (kinds_of handlers)))
          swept_jobs
          found
        × Round ends found
    run_once-Round =
        let (found, finds, claim) =
          claim_due-Finds q claim_clock now lease (some (kinds_of handlers)) jobs claim_read low
            high unique in
        (found, finds, Round-of found finds claim)
