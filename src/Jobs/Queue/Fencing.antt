-- ===== src/Jobs/Queue/Fencing.antt =====
-- Attempt numbers fence late completions: once a row has been claimed again, the earlier claim
-- changes nothing any more, whatever happens in between.
use gasu_schedule_bot.Base.{
  ℕ, ◌+◌, ◌≤◌, ◌<◌, ◌≡◌, refl, sym, ap, subst, String, Bool, true, false, Option, none, some, List,
  map, arith, All, All-mono, ◌==◌, Bool-cases, inl, inr, ok, >>=-eq-ok, DateTime, aware, naive, ◌∙◌,
}
use gasu_schedule_bot.Sql.{update_where, RowIds}
use gasu_schedule_bot.Sql.Unique.{
  Distinct, map-update_where, update_none, returning_none, All-mem, mem-map, same_row,
  All-update_where,
}
use gasu_schedule_bot.Sql.First.{Finds, IsFirst}
use gasu_schedule_bot.Jobs.Policy.{Outcome, validate_lease, min_lease, max_lease, aware_instant}
use gasu_schedule_bot.Jobs.Queue.{
  Job, job_id, JobClaim, JobQueue, eligible, claimed_before, lease_row, claim_due, holds, succeed,
  succeed_row, fail, fail_row, fail_exhausted_expired, exhausted_expired, expire,
}
use gasu_schedule_bot.Jobs.Queue.Claims.{
  claimed, swept, claim_due-Finds, ids-fail_exhausted_expired,
}
use gasu_schedule_bot.Jobs.Queue.Edits.{IsValid, HasAttempts, Edits-HasAttempts, done, change}
use gasu_schedule_bot.Jobs.Queue.Effects.{expire-IsEdit}
use gasu_schedule_bot.Jobs.Queue.Steps.{Reach, here, next, claims, Reach-IsValid, Reach-HasAttempts}

module _ {P : Type 0} where
  not_held :
      (q : JobQueue) (claim : JobClaim P) (n : ℕ)
      → claim.attempt < n
      → (j : Job P) → (j.id ≡ claim.id → n ≤ j.attempts)
      → holds q claim j ≡ false
  unfolding holds
  not_held q claim n late j h = elim (Bool-cases (j.id == claim.id)) [
    | inl e ↦ ground (arith, h (ground arith))
    | inr e ↦ rw e
  ]

  pub none_held :
      (q : JobQueue) (claim : JobClaim P) (n : ℕ)
      → claim.attempt < n
      → (jobs : List (Job P)) → HasAttempts claim.id n jobs
      → All (λ j. holds q claim j ≡ false) jobs
  none_held q claim n late jobs h =
      All-mono (λ j. j.id ≡ claim.id → n ≤ j.attempts) (λ j. holds q claim j ≡ false)
        (not_held q claim n late) jobs h.attempted

instant_read : (t : DateTime) {now : ℕ} → aware_instant t ≡ ok now → t ≡ aware now
instant_read (aware t) h = ground arith
instant_read (naive t) h = cc

ok_inj : {A : Type 0} {a b : A} → ◌≡◌ {A = Outcome A} (ok a) (ok b) → a ≡ b
ok_inj h = cc

swept_lem :
    {P : Type 0} (now : ℕ) (kinds : Option (List String)) (jobs : List (Job P))
    → fail_exhausted_expired now kinds jobs
      ≡ update_where (exhausted_expired now kinds) (expire now) jobs
unfolding fail_exhausted_expired
swept_lem now kinds jobs = refl

lease_in_range :
    (lease : ℕ) {u : Unit {0}}
    → validate_lease lease ≡ ok u
    → (min_lease ≤ lease) × (lease ≤ max_lease)
unfolding validate_lease
lease_in_range lease h = ground arith

module _ {P : Type 0} (q : JobQueue) (clock : ℕ → DateTime) (lease : ℕ)
    (kinds : Option (List String)) where
  claim_due_ran :
      (jobs : List (Job P)) {answer : Option (JobClaim P) × List (Job P)}
      → claim_due q clock lease kinds jobs ≡ ok answer
      → (now : ℕ) × (clock 0 ≡ aware now) × (min_lease ≤ lease) × (lease ≤ max_lease)
  unfolding claim_due
  claim_due_ran jobs h =
      let (_, valid, h₁) = >>=-eq-ok (validate_lease lease) _ h in
      let (now, read, _) = >>=-eq-ok (aware_instant (clock 0)) _ h₁ in
      let range = lease_in_range lease valid in (now, instant_read (clock 0) read, range.0, range.1)

  -- What a call of `claim_due` that returned has done.
  pub claim_due_result :
      (jobs : List (Job P)) {answer : Option (JobClaim P) × List (Job P)}
      → Distinct (map job_id jobs)
      → claim_due q clock lease kinds jobs ≡ ok answer
      → (now : ℕ) × (found : Option (Job P)) × Finds claimed_before
          (eligible now kinds)
          (swept q clock now lease kinds jobs)
          found
        × (answer ≡ claimed q clock now lease kinds jobs found)
  claim_due_result jobs {answer} d h =
      let (now, read, low, high) = claim_due_ran jobs h in
      let (found, finds, same) = claim_due-Finds q clock now lease kinds jobs read low high d in
      (now, found, finds, ok_inj (sym h ∙ same))

  module _ (now : ℕ) (jobs : List (Job P)) (d : Distinct (map job_id jobs)) (j : Job P)
      (first : IsFirst claimed_before
        (eligible now kinds)
        (swept q clock now lease kinds jobs)
        j) where
    claimed_row-HasAttempts :
        HasAttempts j.id (j.attempts + 1) (claimed q clock now lease kinds jobs (some j)).1
    claimed_row-HasAttempts =
        let rows = swept q clock now lease kinds jobs in
        let leased = lease_row q.worker_id now (now + lease) in
        let ids = ids-fail_exhausted_expired now kinds jobs in
        record {
          present =
              rw (map-update_where job_id (λ x. x.id == j.id) leased (λ x. refl) rows)
                (mem-map job_id rows j first.row);
          attempted =
              All-update_where (λ x. x.id ≡ j.id → j.attempts + 1 ≤ x.attempts) (λ x. x.id == j.id)
                leased rows
                (All-mono (λ x. x.id ≡ j.id → x ≡ j)
                  (λ x.
                    ((x.id == j.id) ≡ true → x.id ≡ j.id → j.attempts + 1 ≤ x.attempts + 1)
                    × ((x.id == j.id) ≡ false → x.id ≡ j.id → j.attempts + 1 ≤ x.attempts))
                  (λ x same. (
                    λ _ e. omega (arith, ap (λ (y : Job P). y.attempts) (same e)),
                    λ n e. absurd (ground (arith, n, e)),
                  ))
                  rows (same_row job_id j rows first.row (rw (← ids) at d)));
        }

  module _ (jobs : List (Job P)) {c : JobClaim P} {jobs' : List (Job P)} where
    claimed_id :
        (now : ℕ) (found : Option (Job P))
        → (some c, jobs') ≡ claimed q clock now lease kinds jobs found
        → (j : Job P) × (found ≡ some j) × (c.id ≡ j.id) × (c.attempt ≡ j.attempts + 1)
    claimed_id now none e = cc
    claimed_id now (some j) e = (j, refl, ground arith, ground arith)

    -- The table records the attempt that a claim carries.
    pub claim-HasAttempts :
        IsValid jobs
        → claim_due q clock lease kinds jobs ≡ ok (some c, jobs')
        → HasAttempts c.id c.attempt jobs'
    claim-HasAttempts v h =
        let (now, found, finds, same) = claim_due_result jobs v.ids h in
        let (j, is_j, id, attempt) = claimed_id now found same in
        let first =
          subst (Finds claimed_before (eligible now kinds) (swept q clock now lease kinds jobs))
            is_j finds in
        let table =
          ap (λ (r : Option (JobClaim P) × List (Job P)). r.1)
            (same ∙ ap (claimed q clock now lease kinds jobs) is_j) in
        rw (id, attempt, table) (claimed_row-HasAttempts now jobs v.ids j first)

    -- A claim of a row that has been attempted `n` times is a later attempt.
    pub attempt_after :
        (n : ℕ)
        → IsValid jobs
        → claim_due q clock lease kinds jobs ≡ ok (some c, jobs')
        → HasAttempts c.id n jobs
        → n < c.attempt
    attempt_after n v h before =
        let (now, found, finds, same) = claim_due_result jobs v.ids h in
        let (j, is_j, id, attempt) = claimed_id now found same in
        let first =
          subst (Finds claimed_before (eligible now kinds) (swept q clock now lease kinds jobs))
            is_j finds in
        let kept =
          Edits-HasAttempts c.id n before
            (change _ _ (expire-IsEdit now kinds) done (swept_lem now kinds jobs)) in
        let bound =
          All-mem (λ x. x.id ≡ c.id → n ≤ x.attempts) (swept q clock now lease kinds jobs) j
            kept.attempted first.row (sym id) in
        omega (arith, bound, attempt)

module _ {P : Type 0} (q : JobQueue) (clock : ℕ → DateTime) (now : ℕ) (read : clock 0 ≡ aware now)
    (claim : JobClaim P) (jobs : List (Job P)) where
  -- A completion whose attempt no row holds is refused and leaves the table as it is.
  pub refused :
      All (λ j. holds q claim j ≡ false) jobs
      → (succeed q clock claim jobs ≡ ok (false, jobs))
        × ((code : String) → fail q clock code claim jobs ≡ ok (false, jobs))
  unfolding succeed fail
  refused h = (
    rw (
      read,
      update_none (holds q claim) (succeed_row now) jobs h,
      returning_none (holds q claim) (succeed_row now) jobs h,
    ),
    λ code. rw (
      read,
      update_none (holds q claim) (fail_row q code claim now) jobs h,
      returning_none (holds q claim) (fail_row q code claim now) jobs h,
    ),
  )

module _ {P : Type 0} (payload_eq : P → P → Bool) (ids : RowIds (job_id {P = P})) (q₁ q₂ : JobQueue)
    (clock₁ clock₂ : ℕ → DateTime) (lease₁ lease₂ : ℕ) (kinds₁ kinds₂ : Option (List String))
    (c₁ c₂ : JobClaim P) (jobs jobs₁ jobs₂ jobs₃ jobs₄ : List (Job P)) (q : JobQueue)
    (clock : ℕ → DateTime) (now : ℕ) (error_code : String) where
  -- From a valid table, let one worker claim a row and later, after any calls, a worker claim the
  -- same row again. Then the second claim has a greater attempt number, and after any further
  -- calls every completion of the first claim, by any worker whose clock is aware, is refused and
  -- changes nothing.
  pub fenced :
      IsValid jobs
      → claim_due q₁ clock₁ lease₁ kinds₁ jobs ≡ ok (some c₁, jobs₁)
      → Reach payload_eq ids jobs₁ jobs₂
      → claim_due q₂ clock₂ lease₂ kinds₂ jobs₂ ≡ ok (some c₂, jobs₃)
      → c₂.id ≡ c₁.id
      → Reach payload_eq ids jobs₃ jobs₄
      → clock 0 ≡ aware now
      → (c₁.attempt < c₂.attempt)
        × (succeed q clock c₁ jobs₄ ≡ ok (false, jobs₄))
        × (fail q clock error_code c₁ jobs₄ ≡ ok (false, jobs₄))
  fenced v h₁ r₁ h₂ same r₂ read =
      let v₁ =
        Reach-IsValid payload_eq ids v (next here (claims q₁ clock₁ lease₁ kinds₁ (some c₁) h₁)) in
      let v₂ = Reach-IsValid payload_eq ids v₁ r₁ in
      let seen = claim-HasAttempts q₁ clock₁ lease₁ kinds₁ jobs v h₁ in
      let before = Reach-HasAttempts payload_eq ids c₁.id c₁.attempt seen r₁ in
      let later =
        attempt_after q₂ clock₂ lease₂ kinds₂ jobs₂ c₁.attempt v₂ h₂
          (subst (λ i. HasAttempts i c₁.attempt jobs₂) (sym same) before) in
      let held = claim-HasAttempts q₂ clock₂ lease₂ kinds₂ jobs₂ v₂ h₂ in
      let after =
        Reach-HasAttempts payload_eq ids c₁.id c₂.attempt
          (subst (λ i. HasAttempts i c₂.attempt jobs₃) same held) r₂ in
      let late = refused q clock now read c₁ jobs₄ (none_held q c₁ c₂.attempt later jobs₄ after) in
      (later, late.0, late.1 error_code)
