-- ===== src/Sql.antt =====
-- The SQL statements that the queues and stores send, on a table held as the list of its rows:
-- SELECT ... WHERE, UPDATE ... WHERE ... RETURNING, ORDER BY ... LIMIT 1. The database itself is
-- not part of the repository; how it numbers new rows is the interface `RowIds`.
pub mod Unique
pub mod First
pub mod Claim
pub mod Sweep
pub mod Numbering
use gasu_schedule_bot.Base.{
  ℕ, ◌≢◌, Bool, false, Option, none, some, List, [], ◌∷◌, All, Result, ok, raise, ◌==◌,
  if◌then◌else◌,
}

module _ {ℓ} {R : Type ℓ} where
  -- SELECT * WHERE test
  unfoldable pub select_where : (R → Bool) → List R → List R
  select_where test [] = []
  select_where test (r ∷ rs) = let rest = select_where test rs in if test r then r ∷ rest else rest

  -- UPDATE SET change WHERE test
  unfoldable pub update_where : (R → Bool) → (R → R) → List R → List R
  update_where test change [] = []
  update_where test change (r ∷ rs) = (if test r then change r else r) ∷ update_where test change rs

  -- The rows that an UPDATE ... WHERE ... RETURNING gives back, as they are after the update.
  unfoldable pub returning : (R → Bool) → (R → R) → List R → List R
  returning test change [] = []
  returning test change (r ∷ rs) =
      let rest = returning test change rs in if test r then change r ∷ rest else rest

  abbrev pub earlier : (R → R → Bool) → R → Option R → Option R
  earlier before r none = some r
  earlier before r (some s) = if before s r then some s else some r

  -- ORDER BY before LIMIT 1
  unfoldable pub first_by : (R → R → Bool) → List R → Option R
  first_by before [] = none
  first_by before (r ∷ rs) = earlier before r (first_by before rs)

-- `Row.id == candidate`; the subquery is NULL, and the test false, where it found no row.
abbrev pub candidate_row {ℓ} : {R : Type ℓ} → (R → ℕ) → Option R → R → Bool
candidate_row id_of none r = false
candidate_row id_of (some c) r = id_of r == id_of c

-- `Result.one_or_none` of a statement that may return at most one row.
unfoldable pub one_or_none : {E R : Type 0} → E → List R → Result E (Option R)
one_or_none multiple [] = ok none
one_or_none multiple (r ∷ []) = ok (some r)
one_or_none multiple (r ∷ s ∷ rs) = raise multiple

-- How the database numbers a new row: the number is not in use.
pub record RowIds {R : Type 0} (id_of : R → ℕ) : Type 0 where
  pub next : List R → ℕ
  pub next_is_new : (rows : List R) → All (λ r. id_of r ≢ next rows) rows
