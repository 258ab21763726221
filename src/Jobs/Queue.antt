-- ===== src/Jobs/Queue.antt =====
-- `JobQueue` of src/szs_hub/jobs/queue.py, on the table of its `Job` rows. A method takes the
-- table and returns its answer with the new table; a raise inside the transaction rolls back, so
-- it carries no table. `clock s` is the reading at the s-th place of the method that calls it.
pub mod Claims
pub mod Ready
pub mod Choice
pub mod Edits
pub mod Effects
pub mod Steps
pub mod Fencing
pub mod Idempotency
use mathlib.Core.Option
use gasu_schedule_bot.Base.{
  ℕ, ◌+◌, ◌≡◌, String, Bool, true, false, ◌&&◌, ◌||◌, not, Option, none, some, List, [], ◌∷◌, ◌++◌,
  ltb, leb, ◌==◌, if◌then◌else◌, str_eq, option_eq, exists, ok, raise, ◌>>=◌, ◌>>◌, DateTime,
}
use gasu_schedule_bot.Sql.{
  select_where, update_where, returning, first_by, one_or_none, candidate_row, RowIds,
}
use gasu_schedule_bot.Jobs.Policy.{
  Outcome, lost_row, idempotency_conflict, multiple_rows, aware_instant, validate_worker_id,
  validate_enqueue, validate_retry_policy, validate_lease, retry_delay,
}

pub data JobStatus : Type 0 where
  pending running succeeded failed cancelled : JobStatus

abbrev pub is_pending : JobStatus → Bool
is_pending JobStatus.pending = true
is_pending _ = false

abbrev pub is_running : JobStatus → Bool
is_running JobStatus.running = true
is_running _ = false

-- A row of `jobs`; its instants are UTC. `P` is the type of the JSON payload.
pub record Job (P : Type 0) : Type 0 where
  pub id : ℕ
  pub kind : String
  pub idempotency_key : String
  pub payload : P
  pub status : JobStatus
  pub run_at : ℕ
  pub attempts : ℕ
  pub max_attempts : ℕ
  pub locked_at : Option ℕ
  pub locked_until : Option ℕ
  pub locked_by : Option String
  pub last_error : Option String
  pub created_at : ℕ
  pub updated_at : ℕ
  pub completed_at : Option ℕ

pub record EnqueueResult : Type 0 where
  pub id : ℕ
  pub created : Bool

pub record JobClaim (P : Type 0) : Type 0 where
  pub id : ℕ
  pub kind : String
  pub idempotency_key : String
  pub payload : P
  pub attempt : ℕ
  pub max_attempts : ℕ
  pub leased_until : ℕ

pub record JobQueue : Type 0 where
  pub worker_id : String
  pub retry_base : ℕ
  pub retry_cap : ℕ

-- `JobQueue.__init__`
unfoldable pub new_queue : String → ℕ → ℕ → Outcome JobQueue
new_queue worker_id retry_base retry_cap = do
  validate_worker_id worker_id
  validate_retry_policy retry_base retry_cap
  ok (record { worker_id = worker_id; retry_base = retry_base; retry_cap = retry_cap })

module _ {P : Type 0} where
  abbrev pub job_id : Job P → ℕ
  job_id j = j.id

  abbrev pub has_key : String → Job P → Bool
  has_key key j = str_eq j.idempotency_key key

  -- The row that INSERT adds: the columns that the statement leaves out have their defaults.
  abbrev pub new_job : ℕ → String → String → P → ℕ → ℕ → ℕ → ℕ → Job P
  new_job id kind key payload run_at max_attempts created_at updated_at = record {
    id = id;
    kind = kind;
    idempotency_key = key;
    payload = payload;
    status = JobStatus.pending;
    run_at = run_at;
    attempts = 0;
    max_attempts = max_attempts;
    locked_at = none;
    locked_until = none;
    locked_by = none;
    last_error = none;
    created_at = created_at;
    updated_at = updated_at;
    completed_at = none;
  }

  abbrev pub first_row : List (Job P) → Option (Job P)
  first_row [] = none
  first_row (j ∷ js) = some j

  -- `existing.run_at = timestamp` under its guards, and the result.
  abbrev pub extend_existing :
      Bool → ℕ → DateTime → Job P → List (Job P) → Outcome (EnqueueResult × List (Job P))
  extend_existing extend timestamp now existing jobs =
      if extend && (is_pending existing.status && ltb existing.run_at timestamp)
      then (do
        updated_at ← aware_instant now
        ok (
          record { id = existing.id; created = false },
          update_where (λ j. j.id == existing.id)
              (λ j. record j { run_at = timestamp; updated_at = updated_at }) jobs,
        ))
      else ok (record { id = existing.id; created = false }, jobs)

module _ {P : Type 0} (payload_eq : P → P → Bool) where
  abbrev pub settle_existing :
      String
      → P
      → Bool
      → ℕ
      → DateTime
      → Option (Job P)
      → List (Job P)
      → Outcome (EnqueueResult × List (Job P))
  settle_existing kind payload extend timestamp now none jobs = raise lost_row
  settle_existing kind payload extend timestamp now (some existing) jobs =
      if not (str_eq existing.kind kind) || not (payload_eq existing.payload payload)
      then raise idempotency_conflict
      else extend_existing extend timestamp now existing jobs

  -- The transaction of `enqueue`. INSERT ... ON CONFLICT (idempotency_key) DO NOTHING RETURNING id
  -- adds the row if its key is new; otherwise the row that holds the key is settled.
  unfoldable pub admit_job :
      Job P → Bool → DateTime → List (Job P) → Outcome (EnqueueResult × List (Job P))
  admit_job row extend now jobs =
      if exists (has_key row.idempotency_key) jobs
      then settle_existing row.kind row.payload extend row.run_at now
          (first_row (select_where (has_key row.idempotency_key) jobs)) jobs
      else ok (record { id = row.id; created = true }, jobs ++ row ∷ [])

  unfoldable pub enqueue :
      RowIds (job_id {P = P})
      → (ℕ → DateTime)
      → String
      → String
      → P
      → Option DateTime
      → ℕ
      → Bool
      → List (Job P)
      → Outcome (EnqueueResult × List (Job P))
  enqueue ids clock kind key payload run_at max_attempts extend jobs = do
    validate_enqueue kind key max_attempts
    timestamp ← aware_instant (Option.get_or run_at (clock 0))
    created_at ← aware_instant (clock 1)
    updated_at ← aware_instant (clock 2)
    let row = new_job (ids.next jobs) kind key payload timestamp max_attempts created_at updated_at
    admit_job row extend (clock 3) jobs

-- `Job.kind.in_(registered_kinds)`; with no restriction every kind passes.
abbrev pub kind_passes : Option (List String) → String → Bool
kind_passes none kind = true
kind_passes (some kinds) kind = exists (λ k. str_eq kind k) kinds

-- `locked_until IS NULL OR locked_until <= now`
abbrev pub lease_over : ℕ → Option ℕ → Bool
lease_over now none = true
lease_over now (some until) = leb until now

-- `case((Job.status == "pending", 0), else_=1)`
abbrev pub rank : JobStatus → ℕ
rank JobStatus.pending = 0
rank _ = 1

module _ {P : Type 0} where
  abbrev pub exhausted_expired : ℕ → Option (List String) → Job P → Bool
  exhausted_expired now kinds j =
      is_running j.status
      && (lease_over now j.locked_until
          && (leb j.max_attempts j.attempts && kind_passes kinds j.kind))

  abbrev pub expire : ℕ → Job P → Job P
  expire now j = record j {
    status = JobStatus.failed;
    completed_at = some now;
    updated_at = now;
    locked_at = none;
    locked_until = none;
    locked_by = none;
    last_error = some "LeaseExpired";
  }

  -- `_fail_exhausted_expired`
  unfoldable pub fail_exhausted_expired : ℕ → Option (List String) → List (Job P) → List (Job P)
  fail_exhausted_expired now kinds = update_where (exhausted_expired now kinds) (expire now)

  -- The `eligible` condition of `claim_due`.
  unfoldable pub eligible : ℕ → Option (List String) → Job P → Bool
  eligible now kinds j =
      ltb j.attempts j.max_attempts
      && (kind_passes kinds j.kind
          && (is_pending j.status && leb j.run_at now
              || is_running j.status && lease_over now j.locked_until))

  -- The order of `claim_due`: pending rows first, then by `run_at`, then by `id`.
  unfoldable pub claimed_before : Job P → Job P → Bool
  claimed_before a b =
      ltb (rank a.status) (rank b.status)
      || rank a.status == rank b.status
        && (ltb a.run_at b.run_at || a.run_at == b.run_at && ltb a.id b.id)

  abbrev pub lease_row : String → ℕ → ℕ → Job P → Job P
  lease_row worker_id now leased_until j = record j {
    status = JobStatus.running;
    attempts = j.attempts + 1;
    locked_at = some now;
    locked_until = some leased_until;
    locked_by = some worker_id;
    updated_at = now;
    last_error = none;
  }

  abbrev pub claim_of : ℕ → Job P → JobClaim P
  claim_of leased_until j = record {
    id = j.id;
    kind = j.kind;
    idempotency_key = j.idempotency_key;
    payload = j.payload;
    attempt = j.attempts;
    max_attempts = j.max_attempts;
    leased_until = leased_until;
  }

  unfoldable pub claim_due :
      JobQueue
      → (ℕ → DateTime)
      → ℕ
      → Option (List String)
      → List (Job P)
      → Outcome (Option (JobClaim P) × List (Job P))
  claim_due q clock lease kinds jobs = do
    validate_lease lease
    now ← aware_instant (clock 0)
    let leased_until = now + lease
    let swept = fail_exhausted_expired now kinds jobs
    let candidate = first_by claimed_before (select_where (eligible now kinds) swept)
    let chosen = λ (j : Job P). candidate_row job_id candidate j && eligible now kinds j
    let leased = lease_row q.worker_id now leased_until
    row ← one_or_none multiple_rows (returning chosen leased swept)
    ok (Option.map (claim_of leased_until) row, update_where chosen leased swept)

  -- The attempt that a completion names: fenced by the attempt number and the worker.
  unfoldable pub holds : JobQueue → JobClaim P → Job P → Bool
  holds q claim j =
      j.id == claim.id
      && (is_running j.status
          && (j.attempts == claim.attempt && option_eq str_eq j.locked_by (some q.worker_id)))

  abbrev pub any_row : List (Job P) → Bool
  any_row [] = false
  any_row (j ∷ js) = true

  abbrev pub succeed_row : ℕ → Job P → Job P
  succeed_row now j = record j {
    status = JobStatus.succeeded;
    completed_at = some now;
    updated_at = now;
    locked_at = none;
    locked_until = none;
    locked_by = none;
    last_error = none;
  }

  unfoldable pub succeed :
      JobQueue → (ℕ → DateTime) → JobClaim P → List (Job P) → Outcome (Bool × List (Job P))
  succeed q clock claim jobs = do
    now ← aware_instant (clock 0)
    ok (
      any_row (returning (holds q claim) (succeed_row now) jobs),
      update_where (holds q claim) (succeed_row now) jobs,
    )

  abbrev pub fail_row : JobQueue → String → JobClaim P → ℕ → Job P → Job P
  fail_row q error_code claim now j =
      let terminal = leb claim.max_attempts claim.attempt in
      record j {
        status = if terminal then JobStatus.failed else JobStatus.pending;
        run_at = if terminal then now else now + retry_delay claim.attempt q.retry_base q.retry_cap;
        completed_at = if terminal then some now else none;
        updated_at = now;
        locked_at = none;
        locked_until = none;
        locked_by = none;
        last_error = some error_code;
      }

  -- `error_code` is `_safe_error_code(error)`.
  unfoldable pub fail :
      JobQueue → (ℕ → DateTime) → String → JobClaim P → List (Job P) → Outcome (Bool × List (Job P))
  fail q clock error_code claim jobs = do
    now ← aware_instant (clock 0)
    ok (
      any_row (returning (holds q claim) (fail_row q error_code claim now) jobs),
      update_where (holds q claim) (fail_row q error_code claim now) jobs,
    )
