-- ===== src/Jobs/Queue/Effects.antt =====
-- Every method of the queue, by any worker, is an edit of the table.
use mathlib.Core.Option
use gasu_schedule_bot.Base.{
  ℕ, ◌+◌, ◌==◌, ◌≡◌, ◌≢◌, refl, String, Bool, false, Option, none, some, List, [], ◌∷◌, arith, All,
  Bool-cases, inl, inr, ◌&&◌, ◌||◌, not, exists, str_eq, eq_iff, ok, >>=-eq-ok, DateTime, ltb,
}
use gasu_schedule_bot.Sql.{one_or_none, RowIds}
use gasu_schedule_bot.Jobs.Policy.{Outcome, aware_instant, validate_enqueue, validate_lease}
use gasu_schedule_bot.Jobs.Queue.{
  Job, job_id, JobClaim, JobQueue, EnqueueResult, is_pending, extend_existing, settle_existing,
  has_key, new_job, admit_job, enqueue, exhausted_expired, expire, fail_exhausted_expired, eligible,
  lease_row, claim_due, holds, succeed, succeed_row, fail, fail_row,
}
use gasu_schedule_bot.Jobs.Queue.Edits.{IsValidJob, IsEdit, Edits, done, change, add}

table_of :
    {A B : Type 0} {a a' : A} {b b' : B}
    → ◌≡◌ {A = Outcome (A × B)} (ok (a, b)) (ok (a', b'))
    → b' ≡ b
table_of h = ground arith

module _ {P : Type 0} where
  pub expire-IsEdit :
      (now : ℕ) (kinds : Option (List String))
      → IsEdit {P = P} (exhausted_expired now kinds) (expire now)
  expire-IsEdit now kinds = record {
    same_id = λ j. refl;
    same_key = λ j. refl;
    grows = λ j. omega arith;
    keeps = λ j t v. record {
      bounded = v.bounded;
      tried = λ e. cc e;
      leased_until = refl;
      leased_by = refl;
      leased_at = refl;
    };
  }

  lease-IsEdit :
      (q : JobQueue) (now until : ℕ) (kinds : Option (List String)) (candidate : Job P → Bool)
      → IsEdit (λ j. candidate j && eligible now kinds j) (lease_row q.worker_id now until)
  unfolding eligible
  lease-IsEdit q now until kinds candidate = record {
    same_id = λ j. refl;
    same_key = λ j. refl;
    grows = λ j. omega arith;
    keeps = λ j t v. record {
      bounded = ground (arith, t);
      tried = λ e. omega arith;
      leased_until = refl;
      leased_by = refl;
      leased_at = refl;
    };
  }

  succeed-IsEdit :
      (q : JobQueue) (now : ℕ) (claim : JobClaim P) → IsEdit (holds q claim) (succeed_row now)
  succeed-IsEdit q now claim = record {
    same_id = λ j. refl;
    same_key = λ j. refl;
    grows = λ j. omega arith;
    keeps = λ j t v. record {
      bounded = v.bounded;
      tried = λ e. cc e;
      leased_until = refl;
      leased_by = refl;
      leased_at = refl;
    };
  }

  fail-IsEdit :
      (q : JobQueue) (code : String) (now : ℕ) (claim : JobClaim P)
      → IsEdit (holds q claim) (fail_row q code claim now)
  fail-IsEdit q code now claim = record {
    same_id = λ j. refl;
    same_key = λ j. refl;
    grows = λ j. omega arith;
    keeps = λ j t v. record {
      bounded = v.bounded;
      tried = λ e. ground (arith, e);
      leased_until = ground arith;
      leased_by = ground arith;
      leased_at = ground arith;
    };
  }

  pub claim_due-Edits :
      (q : JobQueue) (clock : ℕ → DateTime) (lease : ℕ) (kinds : Option (List String))
      {jobs jobs' : List (Job P)} {answer : Option (JobClaim P)}
      → claim_due q clock lease kinds jobs ≡ ok (answer, jobs')
      → Edits jobs jobs'
  unfolding claim_due fail_exhausted_expired
  claim_due-Edits q clock lease kinds {jobs} h =
      let (_, _, h₁) = >>=-eq-ok (validate_lease lease) _ h in
      let (now, _, h₂) = >>=-eq-ok (aware_instant (clock 0)) _ h₁ in
      let (_, _, h₃) = >>=-eq-ok (one_or_none _ _) _ h₂ in
      change _ _ (lease-IsEdit q now (now + lease) kinds _)
        (change _ _ (expire-IsEdit now kinds) done refl) (table_of h₃)

  pub succeed-Edits :
      (q : JobQueue) (clock : ℕ → DateTime) (claim : JobClaim P) {jobs jobs' : List (Job P)}
      {answer : Bool}
      → succeed q clock claim jobs ≡ ok (answer, jobs')
      → Edits jobs jobs'
  unfolding succeed
  succeed-Edits q clock claim h =
      let (now, _, h₁) = >>=-eq-ok (aware_instant (clock 0)) _ h in
      change _ _ (succeed-IsEdit q now claim) done (table_of h₁)

  pub fail-Edits :
      (q : JobQueue) (clock : ℕ → DateTime) (code : String) (claim : JobClaim P)
      {jobs jobs' : List (Job P)} {answer : Bool}
      → fail q clock code claim jobs ≡ ok (answer, jobs')
      → Edits jobs jobs'
  unfolding fail
  fail-Edits q clock code claim h =
      let (now, _, h₁) = >>=-eq-ok (aware_instant (clock 0)) _ h in
      change _ _ (fail-IsEdit q code now claim) done (table_of h₁)

  extend-IsEdit :
      (id run_at updated_at : ℕ)
      → IsEdit {P = P}
          (λ j. j.id == id)
          (λ j. record j { run_at = run_at; updated_at = updated_at })
  extend-IsEdit id run_at updated_at = record {
    same_id = λ j. refl;
    same_key = λ j. refl;
    grows = λ j. omega arith;
    keeps = λ j t v. record {
      bounded = v.bounded;
      tried = v.tried;
      leased_until = v.leased_until;
      leased_by = v.leased_by;
      leased_at = v.leased_at;
    };
  }

  no_key :
      (key : String) (jobs : List (Job P))
      → exists (has_key key) jobs ≡ false
      → All (λ j. j.idempotency_key ≢ key) jobs
  no_key key [] h = tt
  no_key key (j ∷ jobs) h =
      (λ e. ground (arith, h, e, eq_iff j.idempotency_key key), no_key key jobs (ground (arith, h)))

  extend_existing-Edits :
      (extend : Bool) (timestamp : ℕ) (now : DateTime) (existing : Job P)
      {jobs jobs' : List (Job P)} {answer : EnqueueResult}
      → extend_existing extend timestamp now existing jobs ≡ ok (answer, jobs')
      → Edits jobs jobs'
  extend_existing-Edits extend timestamp now existing h =
      elim (Bool-cases (extend && (is_pending existing.status && ltb existing.run_at timestamp))) [
        | inl e ↦
            let (updated_at, _, h₁) = >>=-eq-ok (aware_instant now) _ (rw e at h) in
            change _ _ (extend-IsEdit existing.id timestamp updated_at) done (table_of h₁)
        | inr e ↦ rw (table_of (rw e at h)) done
      ]

  new_job-IsValidJob :
      (id : ℕ) (kind key : String) (payload : P) (run_at max_attempts created updated : ℕ)
      → IsValidJob (new_job id kind key payload run_at max_attempts created updated)
  new_job-IsValidJob id kind key payload run_at max_attempts created updated = record {
    bounded = omega arith;
    tried = λ e. cc e;
    leased_until = refl;
    leased_by = refl;
    leased_at = refl;
  }

module _ {P : Type 0} (payload_eq : P → P → Bool) where
  settle_existing-Edits :
      (kind : String) (payload : P) (extend : Bool) (timestamp : ℕ) (now : DateTime)
      (found : Option (Job P)) {jobs jobs' : List (Job P)} {answer : EnqueueResult}
      → settle_existing payload_eq kind payload extend timestamp now found jobs ≡ ok (answer, jobs')
      → Edits jobs jobs'
  settle_existing-Edits kind payload extend timestamp now none h = cc h
  settle_existing-Edits kind payload extend timestamp now (some existing) h =
      elim (Bool-cases
        (not (str_eq existing.kind kind) || not (payload_eq existing.payload payload))) [
          | inl e ↦ cc (rw e at h)
          | inr e ↦ extend_existing-Edits extend timestamp now existing (rw e at h)
        ]

  admit_job-Edits :
      (row : Job P) (extend : Bool) (now : DateTime) {jobs jobs' : List (Job P)}
      {answer : EnqueueResult}
      → IsValidJob row
      → All (λ j. j.id ≢ row.id) jobs
      → admit_job payload_eq row extend now jobs ≡ ok (answer, jobs')
      → Edits jobs jobs'
  unfolding admit_job
  admit_job-Edits row extend now {jobs} valid new h =
      elim (Bool-cases (exists (has_key row.idempotency_key) jobs)) [
        | inl e ↦ settle_existing-Edits row.kind row.payload extend row.run_at now _ (rw e at h)
        | inr e ↦
            add row
              (record {
                valid = valid;
                id_is_new = new;
                key_is_new = no_key row.idempotency_key jobs e;
              })
              done (table_of (rw e at h))
      ]

  pub enqueue-Edits :
      (ids : RowIds (job_id {P = P})) (clock : ℕ → DateTime) (kind key : String) (payload : P)
      (run_at : Option DateTime) (max_attempts : ℕ) (extend : Bool) {jobs jobs' : List (Job P)}
      {answer : EnqueueResult}
      → enqueue payload_eq ids clock kind key payload run_at max_attempts extend jobs
        ≡ ok (answer, jobs')
      → Edits jobs jobs'
  unfolding enqueue
  enqueue-Edits ids clock kind key payload run_at max_attempts extend {jobs} h =
      let (_, _, h₁) = >>=-eq-ok (validate_enqueue kind key max_attempts) _ h in
      let (timestamp, _, h₂) = >>=-eq-ok (aware_instant (Option.get_or run_at (clock 0))) _ h₁ in
      let (created_at, _, h₃) = >>=-eq-ok (aware_instant (clock 1)) _ h₂ in
      let (updated_at, _, h₄) = >>=-eq-ok (aware_instant (clock 2)) _ h₃ in
      admit_job-Edits _ extend (clock 3)
        (new_job-IsValidJob _ kind key payload timestamp max_attempts created_at updated_at)
        (ids.next_is_new jobs) h₄
