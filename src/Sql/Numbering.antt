-- ===== src/Sql/Numbering.antt =====
-- One way to number rows that fits the interface: SQLite's rowid of a new row, one more than the
-- greatest in use.
use gasu_schedule_bot.Base.{ℕ, suc, ◌≤◌, ◌≢◌, max, List, [], ◌∷◌, arith, All, All-mono}
use gasu_schedule_bot.Sql.{RowIds}

module _ {R : Type 0} (id_of : R → ℕ) where
  abbrev greatest : List R → ℕ
  greatest [] = 0
  greatest (r ∷ rows) = max (id_of r) (greatest rows)

  pub All-small : (rows : List R) → All (λ r. id_of r ≤ greatest rows) rows
  All-small [] = tt
  All-small (r ∷ rows) = (
    omega arith,
    All-mono (λ x. id_of x ≤ greatest rows) (λ x. id_of x ≤ greatest (r ∷ rows))
        (λ x h. omega (arith, h)) rows (All-small rows),
  )

  -- SQLite's rowid of a new row: one more than the greatest in use.
  abbrev pub max_plus_one : RowIds id_of
  max_plus_one = record {
    next = λ rows. suc (greatest rows);
    next_is_new = λ rows.
        All-mono (λ r. id_of r ≤ greatest rows) (λ r. id_of r ≢ suc (greatest rows))
          (λ r h. omega (arith, h)) rows (All-small rows);
  }
