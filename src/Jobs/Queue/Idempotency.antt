-- ===== src/Jobs/Queue/Idempotency.antt =====
-- An idempotency key names one logical job: a repeated enqueue returns the row that is there, and
-- a different job under the same key is refused.
use mathlib.Core.List.{Memᴰ}
use mathlib.Core.Option
use text.Mathlib.TextPositions.{eq_refl}
use gasu_schedule_bot.Base.{
  ℕ, All, map, ◌≡◌, ◌≢◌, refl, ap, String, Bool, true, false, Option, none, some, List, [], ◌∷◌,
  ◌++◌, arith, exists, eq_iff, ok, raise, >>=-eq-ok, DateTime, aware, Bool-cases, inl, inr, ◌⊎◌,
}
use gasu_schedule_bot.Sql.{select_where, RowIds}
use gasu_schedule_bot.Sql.Unique.{Distinct, same_row}
use gasu_schedule_bot.Jobs.Queue.Edits.{job_key}
use gasu_schedule_bot.Jobs.Policy.{Outcome, aware_instant, validate_enqueue, idempotency_conflict}
use gasu_schedule_bot.Jobs.Queue.{
  Job, job_id, EnqueueResult, has_key, first_row, new_job, settle_existing, admit_job, enqueue,
}

module _ {P : Type 0} (key : String) (row : Job P) (same : row.idempotency_key ≡ key) where
  exists-append : (jobs : List (Job P)) → exists (has_key key) (jobs ++ row ∷ []) ≡ true
  exists-append [] = ground (arith, same, eq_iff row.idempotency_key key)
  exists-append (j ∷ jobs) = ground (arith, exists-append jobs)

  select-append :
      (jobs : List (Job P))
      → exists (has_key key) jobs ≡ false
      → select_where (has_key key) (jobs ++ row ∷ []) ≡ row ∷ []
  unfolding select_where
  select-append [] h = ground (arith, same, eq_iff row.idempotency_key key)
  select-append (j ∷ jobs) h = ground (arith, h, select-append jobs)

module _ {P : Type 0} (payload_eq : P → P → Bool) (reflexive : (p : P) → payload_eq p p ≡ true)
    (kind key : String) (payload : P) where
  -- Without `extend` an existing row is only looked at.
  settle_again :
      (t t' : ℕ) (now now' : DateTime) (found : Option (Job P)) (jobs : List (Job P))
      {jobs' : List (Job P)} {r : EnqueueResult}
      → settle_existing payload_eq kind payload false t now found jobs ≡ ok (r, jobs')
      → (jobs' ≡ jobs)
        × (settle_existing payload_eq kind payload false t' now' found jobs
            ≡ ok (record { id = r.id; created = false }, jobs))
  settle_again t t' now now' none jobs h = cc
  settle_again t t' now now' (some j) jobs h = ground (arith, h)

  created_row :
      (row : Job P) (jobs : List (Job P)) {jobs' : List (Job P)} {r : EnqueueResult}
      → ◌≡◌ {A = Outcome (EnqueueResult × List (Job P))}
          (ok (record { id = row.id; created = true }, jobs ++ row ∷ []))
          (ok (r, jobs'))
      → (jobs' ≡ jobs ++ row ∷ []) × (r.id ≡ row.id)
  created_row row jobs h = (ground arith, ground arith)

  admit_again :
      (id id' t t' m m' c c' u u' : ℕ) (now now' : DateTime) (jobs : List (Job P))
      {jobs' : List (Job P)} {r : EnqueueResult}
      → admit_job payload_eq (new_job id kind key payload t m c u) false now jobs ≡ ok (r, jobs')
      → admit_job payload_eq (new_job id' kind key payload t' m' c' u') false now' jobs'
        ≡ ok (record { id = r.id; created = false }, jobs')
  unfolding admit_job
  admit_again id id' t t' m m' c c' u u' now now' jobs h =
      elim (Bool-cases (exists (has_key key) jobs)) [
        | inl e ↦
            let (kept, again) =
              settle_again t t' now now' (first_row (select_where (has_key key) jobs)) jobs
                (rw e at h) in
            rw (kept, e) again
        | inr e ↦
            let row = new_job id kind key payload t m c u in
            let (table, same_id) = created_row row jobs (rw e at h) in
            rw (table, same_id, exists-append key row refl jobs, select-append key row refl jobs e)
              (rw (eq_refl, reflexive payload))
      ]

  -- Once an enqueue without `extend` has returned, the same enqueue on the table that it left, with
  -- aware clocks and with no due time or an aware one, be it another than before, returns the same
  -- id, reports that nothing was created, and leaves the table alone. `payload_eq` is the equality
  -- of JSON payloads, which is reflexive.
  pub enqueue_twice :
      (ids ids' : RowIds (job_id {P = P})) (clock clock' : ℕ → DateTime)
      (run_at run_at' : Option DateTime) (max_attempts t c u : ℕ) (jobs : List (Job P))
      {jobs' : List (Job P)} {r : EnqueueResult}
      → enqueue payload_eq ids clock kind key payload run_at max_attempts false jobs ≡ ok (r, jobs')
      → Option.get_or run_at' (clock' 0) ≡ aware t
      → clock' 1 ≡ aware c
      → clock' 2 ≡ aware u
      → enqueue payload_eq ids' clock' kind key payload run_at' max_attempts false jobs'
        ≡ ok (record { id = r.id; created = false }, jobs')
  unfolding enqueue
  enqueue_twice ids ids' clock clock' run_at run_at' max_attempts t c u jobs {jobs'} h e₀ e₁ e₂ =
      let (_, valid, h₁) = >>=-eq-ok (validate_enqueue kind key max_attempts) _ h in
      let (timestamp, _, h₂) = >>=-eq-ok (aware_instant (Option.get_or run_at (clock 0))) _ h₁ in
      let (created_at, _, h₃) = >>=-eq-ok (aware_instant (clock 1)) _ h₂ in
      let (updated_at, _, h₄) = >>=-eq-ok (aware_instant (clock 2)) _ h₃ in
      rw (valid, e₀, e₁, e₂)
        (admit_again _ (ids'.next jobs') timestamp t max_attempts max_attempts created_at c
          updated_at u (clock 3) (clock' 3) jobs h₄)

module _ {P : Type 0} (payload_eq : P → P → Bool) (j : Job P) where
  found_by_key :
      (jobs : List (Job P))
      → Memᴰ j jobs
      → All (λ x. x.idempotency_key ≡ j.idempotency_key → x ≡ j) jobs
      → (exists (has_key j.idempotency_key) jobs ≡ true)
        × (first_row (select_where (has_key j.idempotency_key) jobs) ≡ some j)
  unfolding select_where
  found_by_key [] m h = elim m [ ]
  found_by_key (x ∷ jobs) (Memᴰ.head here) h = rw (← here, eq_refl) (refl, refl)
  found_by_key (x ∷ jobs) (Memᴰ.tail there) h =
      let (any, first) = found_by_key jobs there h.1 in
      elim (Bool-cases (has_key j.idempotency_key x)) [
        | inl e ↦ rw e (refl, ap some (h.0 ((eq_iff x.idempotency_key j.idempotency_key).0 e)))
        | inr e ↦ rw e (any, first)
      ]

  -- In a table with distinct keys, an enqueue that passes validation under the key of a row whose
  -- kind or payload differs is refused, whatever its other arguments.
  pub enqueue_conflict :
      (ids : RowIds (job_id {P = P})) (clock : ℕ → DateTime) (kind : String) (payload : P)
      (run_at : Option DateTime) (max_attempts t c u : ℕ) (extend : Bool) (jobs : List (Job P))
      → Memᴰ j jobs
      → Distinct (map job_key jobs)
      → (j.kind ≢ kind) ⊎ (payload_eq j.payload payload ≡ false)
      → validate_enqueue kind j.idempotency_key max_attempts ≡ ok tt
      → Option.get_or run_at (clock 0) ≡ aware t
      → clock 1 ≡ aware c
      → clock 2 ≡ aware u
      → enqueue payload_eq ids clock kind j.idempotency_key payload run_at max_attempts extend jobs
        ≡ raise idempotency_conflict
  unfolding enqueue admit_job
  enqueue_conflict ids clock kind payload run_at max_attempts t c u extend jobs m d other valid e₀
        e₁ e₂ =
      let (any, first) = found_by_key jobs m (same_row job_key j jobs m d) in
      rw (valid, e₀, e₁, e₂, any, first) (ground (arith, other, eq_iff j.kind kind))
