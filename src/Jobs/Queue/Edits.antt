-- ===== src/Jobs/Queue/Edits.antt =====
-- The effect of a queue method on its table: rows are changed in place or one is added. What such
-- edits keep is proved once, here.
use mathlib.Core.List.{Memᴰ}
use gasu_schedule_bot.Base.{
  ℕ, ◌≤◌, ◌≡◌, ◌≢◌, String, Bool, true, List, [], ◌∷◌, ◌++◌, map, arith, All, Bool-cases, inl, inr,
  is_some, sym, All-append, All-map,
}
use gasu_schedule_bot.Sql.{update_where}
use gasu_schedule_bot.Sql.Unique.{
  Distinct, Distinct-append_new, map-append_row, map-update_where, mem-append_left,
}
use gasu_schedule_bot.Jobs.Queue.{Job, job_id, is_running}

abbrev pub job_key : {P : Type 0} → Job P → String
job_key j = j.idempotency_key

-- A row's attempts stay within its limit, and it carries a lease exactly while it is running.
pub record IsValidJob {P : Type 0} (j : Job P) : Type 0 where
  pub bounded : j.attempts ≤ j.max_attempts
  pub tried : is_running j.status ≡ true → 1 ≤ j.attempts
  pub leased_until : is_some j.locked_until ≡ is_running j.status
  pub leased_by : is_some j.locked_by ≡ is_running j.status
  pub leased_at : is_some j.locked_at ≡ is_running j.status

-- The rows are valid, and no two share an id or an idempotency key.
pub record IsValid {P : Type 0} (jobs : List (Job P)) : Type 0 where
  pub rows : All IsValidJob jobs
  pub ids : Distinct (map job_id jobs)
  pub keys : Distinct (map job_key jobs)

module _ {P : Type 0} where
  pub record IsEdit (test : Job P → Bool) (change : Job P → Job P) : Type 0 where
    pub same_id : (j : Job P) → (change j).id ≡ j.id
    pub same_key : (j : Job P) → (change j).idempotency_key ≡ j.idempotency_key
    pub grows : (j : Job P) → j.attempts ≤ (change j).attempts
    pub keeps : (j : Job P) → test j ≡ true → IsValidJob j → IsValidJob (change j)

  pub record IsNew (row : Job P) (jobs : List (Job P)) : Type 0 where
    pub valid : IsValidJob row
    pub id_is_new : All (λ j. j.id ≢ row.id) jobs
    pub key_is_new : All (λ j. j.idempotency_key ≢ row.idempotency_key) jobs

  pub data Edits (jobs : List (Job P)) : List (Job P) → Type 0 where
    done : Edits jobs jobs
    change :
        {before after : List (Job P)} (test : Job P → Bool) (f : Job P → Job P)
        → IsEdit test f
        → Edits jobs before
        → after ≡ update_where test f before
        → Edits jobs after
    add :
        {before after : List (Job P)} (row : Job P)
        → IsNew row before
        → Edits jobs before
        → after ≡ before ++ row ∷ []
        → Edits jobs after

  rows-update :
      (test : Job P → Bool) (f : Job P → Job P)
      → IsEdit test f
      → (jobs : List (Job P)) → All IsValidJob jobs
      → All IsValidJob (update_where test f jobs)
  unfolding update_where
  rows-update test f e [] v = tt
  rows-update test f e (j ∷ jobs) v = elim (Bool-cases (test j)) [
    | inl pass ↦ rw pass (e.keeps j pass v.0, rows-update test f e jobs v.1)
    | inr fail ↦ rw fail (v.0, rows-update test f e jobs v.1)
  ]

  -- Every edit keeps a table valid.
  pub Edits-IsValid :
      {before after : List (Job P)} → IsValid before → Edits before after → IsValid after
  Edits-IsValid v done = v
  Edits-IsValid v (change {before = jobs} test f e rest same) =
      let w = Edits-IsValid v rest in
      rw same (record {
        rows = rows-update test f e jobs w.rows;
        ids = rw (map-update_where job_id test f e.same_id jobs) w.ids;
        keys = rw (map-update_where job_key test f e.same_key jobs) w.keys;
      })
  Edits-IsValid v (add {before = jobs} row new rest same) =
      let w = Edits-IsValid v rest in
      rw same (record {
        rows = All-append IsValidJob jobs (row ∷ []) w.rows (new.valid, tt);
        ids = rw (map-append_row job_id jobs row) (
            Distinct-append_new row.id (map job_id jobs)
              (All-map (λ i. i ≢ row.id) job_id jobs new.id_is_new) w.ids);
        keys = rw (map-append_row job_key jobs row) (
            Distinct-append_new row.idempotency_key (map job_key jobs)
              (All-map (λ k. k ≢ row.idempotency_key) job_key jobs new.key_is_new) w.keys);
      })

  -- The row with this id is in the table, and has been attempted at least so often.
  pub record HasAttempts (id n : ℕ) (jobs : List (Job P)) : Type 0 where
    pub present : Memᴰ id (map job_id jobs)
    pub attempted : All (λ j. j.id ≡ id → n ≤ j.attempts) jobs

  attempted-update :
      (id n : ℕ) (test : Job P → Bool) (f : Job P → Job P)
      → IsEdit test f
      → (jobs : List (Job P)) → All (λ j. j.id ≡ id → n ≤ j.attempts) jobs
      → All (λ j. j.id ≡ id → n ≤ j.attempts) (update_where test f jobs)
  unfolding update_where
  attempted-update id n test f e [] h = tt
  attempted-update id n test f e (j ∷ jobs) h = elim (Bool-cases (test j)) [
    | inl pass ↦
        rw pass
          (λ p. omega (arith, e.grows j, e.same_id j, h.0), attempted-update id n test f e jobs h.1)
    | inr fail ↦ rw fail (h.0, attempted-update id n test f e jobs h.1)
  ]

  new_is_other :
      (id n : ℕ) (jobs : List (Job P))
      → All (λ j. j.id ≢ n) jobs
      → Memᴰ id (map job_id jobs)
      → id ≢ n
  new_is_other id n [] new m = elim m [ ]
  new_is_other id n (j ∷ jobs) new (Memᴰ.head here) = rw here new.0
  new_is_other id n (j ∷ jobs) new (Memᴰ.tail there) = new_is_other id n jobs new.1 there

  -- No edit takes an attempt back.
  pub Edits-HasAttempts :
      {before after : List (Job P)} (id n : ℕ)
      → HasAttempts id n before
      → Edits before after
      → HasAttempts id n after
  Edits-HasAttempts id n h done = h
  Edits-HasAttempts id n h (change {before = jobs} test f e rest same) =
      let g = Edits-HasAttempts id n h rest in
      rw same (record {
        present = rw (map-update_where job_id test f e.same_id jobs) g.present;
        attempted = attempted-update id n test f e jobs g.attempted;
      })
  Edits-HasAttempts id n h (add {before = jobs} row new rest same) =
      let g = Edits-HasAttempts id n h rest in
      rw same (record {
        present =
            rw (map-append_row job_id jobs row)
              (mem-append_left id (map job_id jobs) (row.id ∷ []) g.present);
        attempted =
            All-append (λ j. j.id ≡ id → n ≤ j.attempts) jobs (row ∷ []) g.attempted
              (λ p. absurd (new_is_other id row.id jobs new.id_is_new g.present (sym p)), tt);
      })
