-- ===== src/Sql/Claim.antt =====
-- UPDATE ... WHERE id = (SELECT id ... ORDER BY ... LIMIT 1) AND test RETURNING ...: the statement by
-- which a queue claims its first ready row.
use mathlib.Core.Option
use gasu_schedule_bot.Base.{
  ℕ, ◌≡◌, refl, Bool, false, ◌&&◌, Option, none, some, List, map, All-of, ok, ◌==◌,
}
use gasu_schedule_bot.Sql.{
  select_where, update_where, returning, first_by, one_or_none, candidate_row,
}
use gasu_schedule_bot.Sql.Unique.{Distinct, returning_one, update_one, update_none, returning_none}
use gasu_schedule_bot.Sql.First.{IsOrder, Finds, first_by_lem}

module _ {R E : Type 0} (id_of : R → ℕ) (before : R → R → Bool) (o : IsOrder before)
    (test : R → Bool) (change : R → R) (multiple : E) (rows : List R)
    (d : Distinct (map id_of rows)) where
  -- The table after the statement has changed the row that it found.
  abbrev pub changed : Option R → List R
  changed none = rows
  changed (some r) = update_where (λ x. id_of x == id_of r) change rows

  claim_row :
      (found : Option R)
      → Finds before test rows found
      → (one_or_none multiple (returning (λ x. candidate_row id_of found x && test x) change rows)
          ≡ ok (Option.map change found))
        × (update_where (λ x. candidate_row id_of found x && test x) change rows ≡ changed found)
  unfolding one_or_none
  claim_row none n =
      let never = All-of (λ x. ◌≡◌ {A = Bool} false false) (λ x. refl) rows in
      (
        rw (returning_none (λ x. false) change rows never),
        update_none (λ x. false) change rows never,
      )
  claim_row (some r) f = (
    rw (returning_one id_of r test change f.passes rows f.row d),
    update_one id_of r test change f.passes rows f.row d,
  )

  -- The statement changes and returns the first row that passes the test, if one does, alone.
  pub claim_first :
      let found = first_by before (select_where test rows) in
      Finds before test rows found
      × (one_or_none multiple (returning (λ x. candidate_row id_of found x && test x) change rows)
          ≡ ok (Option.map change found))
      × (update_where (λ x. candidate_row id_of found x && test x) change rows ≡ changed found)
  claim_first =
      let finds = first_by_lem before o test rows in
      let (answer, table) = claim_row (first_by before (select_where test rows)) finds in
      (finds, answer, table)
