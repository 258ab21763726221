-- ===== src/Inbox.antt =====
-- The inbox of Telegram updates: src/szs_hub/storage/inbox.py, on its two tables
-- (storage/models.py). A raise rolls the caller's transaction back, so it carries no tables. An
-- insert whose key is taken does nothing; one that breaks the foreign key raises.
pub mod Ledger
pub mod Steps
mod Tests
use mathlib.Core.Option
use gasu_schedule_bot.Base.{
  ℕ, ◌≡◌, String, Bool, true, false, not, Option, none, some, List, [], ◌∷◌, ◌++◌, ◌==◌,
  if◌then◌else◌, str_eq, exists, Result, ok, raise, ◌>>=◌, ◌>>◌, raise_if, DateTime, aware, naive,
}
use gasu_schedule_bot.Base.Int.{ℤ, pos, negsuc}
use gasu_schedule_bot.Sql.{update_where, RowIds}

pub data InboxError : Type 0 where
  bad_update_id unsupported_outcome naive_timestamp integrity_error : InboxError

abbrev pub Outcome : Type 0 → Type 0
Outcome A = Result InboxError A

abbrev pub aware_instant : DateTime → Outcome ℕ
aware_instant (aware t) = ok t
aware_instant (naive t) = raise naive_timestamp

-- A row of `inbox_updates`; `P` is the type of the JSON payload.
pub record InboxUpdate (P : Type 0) : Type 0 where
  pub id : ℕ
  pub update_id : ℕ
  pub payload : P
  pub received_at : ℕ
  pub available_at : ℕ
  pub claimed_at : Option ℕ
  pub processed_at : Option ℕ
  pub attempts : ℕ
  pub last_error : Option String

-- A row of `processed_updates`.
pub record ProcessedUpdate : Type 0 where
  pub update_id : ℕ
  pub handler : String
  pub outcome : String
  pub processed_at : ℕ
  pub detail : Option String

pub record Inbox (P : Type 0) : Type 0 where
  pub updates : List (InboxUpdate P)
  pub processed : List ProcessedUpdate

abbrev pub of_outcome : ℕ → ProcessedUpdate → Bool
of_outcome update_id p = p.update_id == update_id

abbrev pub non_negative : ℤ → Outcome ℕ
non_negative (pos n) = ok n
non_negative (negsuc n) = raise bad_update_id

abbrev pub outcomes : List String
outcomes = "processed" ∷ "ignored" ∷ "failed" ∷ []

module _ {P : Type 0} where
  abbrev pub update_key : InboxUpdate P → ℕ
  update_key u = u.id

  abbrev pub of_update : ℕ → InboxUpdate P → Bool
  of_update update_id u = u.update_id == update_id

  abbrev pub new_update : ℕ → ℕ → P → ℕ → InboxUpdate P
  new_update id update_id payload timestamp = record {
    id = id;
    update_id = update_id;
    payload = payload;
    received_at = timestamp;
    available_at = timestamp;
    claimed_at = none;
    processed_at = none;
    attempts = 0;
    last_error = none;
  }

  abbrev pub admit_update : InboxUpdate P → Inbox P → Bool × Inbox P
  admit_update row inbox =
      if exists (of_update row.update_id) inbox.updates
      then (false, inbox)
      else (true, record inbox { updates = inbox.updates ++ row ∷ [] })

  -- `now` is the reading of `utc_now`.
  unfoldable pub enqueue_raw_update :
      RowIds update_key → DateTime → ℤ → P → Option DateTime → Inbox P → Outcome (Bool × Inbox P)
  enqueue_raw_update ids now update_id payload received_at inbox = do
    id ← non_negative update_id
    timestamp ← aware_instant (Option.get_or received_at now)
    ok (admit_update (new_update (ids.next inbox.updates) id payload timestamp) inbox)

  abbrev pub processed : ℕ → InboxUpdate P → InboxUpdate P
  processed timestamp u = record u { processed_at = some timestamp }

  -- The insert, and the row of the update that it closes; `update_id` is unique in both tables.
  abbrev pub close_update : ProcessedUpdate → Inbox P → Outcome (Bool × Inbox P)
  close_update row inbox =
      if exists (of_outcome row.update_id) inbox.processed
      then ok (false, inbox)
      else if exists (of_update row.update_id) inbox.updates
      then ok (
        true,
        record {
          updates =
              update_where (of_update row.update_id) (processed row.processed_at) inbox.updates;
          processed = inbox.processed ++ row ∷ [];
        },
      )
      else raise integrity_error

  unfoldable pub record_processed_update :
      DateTime
      → ℕ
      → String
      → String
      → Option String
      → Option DateTime
      → Inbox P
      → Outcome (Bool × Inbox P)
  record_processed_update now update_id handler outcome detail processed_at inbox = do
    raise_if (not (exists (λ o. str_eq outcome o) outcomes)) unsupported_outcome
    timestamp ← aware_instant (Option.get_or processed_at now)
    close_update
        (record {
          update_id = update_id;
          handler = handler;
          outcome = outcome;
          processed_at = timestamp;
          detail = detail;
        })
        inbox
