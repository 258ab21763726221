-- ===== src/Sql/First.antt =====
-- ORDER BY ... LIMIT 1 returns a row of the table that no other row precedes.
use mathlib.Core.List.{Memᴰ}
use gasu_schedule_bot.Base.{
  ◌≡◌, refl, Bool, true, false, Option, none, some, List, [], ◌∷◌, arith, All, All-mono, Bool-cases,
  inl, inr,
}
use gasu_schedule_bot.Sql.{first_by, select_where, earlier}

-- The columns of an ORDER BY, as a strict weak order on rows.
pub record IsOrder {ℓ} {R : Type ℓ} (before : R → R → Bool) : Type ℓ where
  pub irrefl : (a : R) → before a a ≡ false
  pub asym : (a b : R) → before a b ≡ true → before b a ≡ false
  pub trans : (a b c : R) → before b a ≡ false → before c b ≡ false → before c a ≡ false

module _ {ℓ} {R : Type ℓ} (before : R → R → Bool) (test : R → Bool) where
  -- `s` passes the test, and no row that passes it precedes `s`.
  pub record IsFirst (rs : List R) (s : R) : Type ℓ where
    pub row : Memᴰ s rs
    pub passes : test s ≡ true
    pub least : All (λ x. test x ≡ true → before x s ≡ false) rs

  pub record NonePasses (rs : List R) : Type ℓ where
    pub fails : All (λ x. test x ≡ false) rs

  -- What a query for the first row that passes the test returns.
  abbrev pub Finds : List R → Option R → Type ℓ
  Finds rs none = NonePasses rs
  Finds rs (some s) = IsFirst rs s

module _ {ℓ} {R : Type ℓ} (before : R → R → Bool) (o : IsOrder before) (test : R → Bool) where
  keep_first :
      (r s : R) (rs : List R)
      → test r ≡ true
      → IsFirst before test rs s
      → Finds before test (r ∷ rs) (earlier before r (some s))
  keep_first r s rs pass f = elim (Bool-cases (before s r)) [
    | inl e ↦
        rw e (record {
          row = Memᴰ.tail f.row;
          passes = f.passes;
          least = (λ _. o.asym s r e, f.least);
        })
    | inr e ↦ rw e (record {
      row = Memᴰ.head refl;
      passes = pass;
      least = (
        λ _. o.irrefl r,
        All-mono (λ x. test x ≡ true → before x s ≡ false) (λ x. test x ≡ true → before x r ≡ false)
            (λ x h p. o.trans r s x e (h p)) rs f.least,
      );
    })
  ]

  start_first :
      (r : R) (rs : List R)
      → test r ≡ true
      → NonePasses before test rs
      → Finds before test (r ∷ rs) (some r)
  start_first r rs pass n = record {
    row = Memᴰ.head refl;
    passes = pass;
    least = (
      λ _. o.irrefl r,
      All-mono (λ x. test x ≡ false) (λ x. test x ≡ true → before x r ≡ false)
          (λ x h p. ground (arith, h, p)) rs n.fails,
    );
  }

  skip_row :
      (r : R) (rs : List R) (found : Option R)
      → test r ≡ false
      → Finds before test rs found
      → Finds before test (r ∷ rs) found
  skip_row r rs none fail n = record { fails = (fail, n.fails) }
  skip_row r rs (some s) fail f = record {
    row = Memᴰ.tail f.row;
    passes = f.passes;
    least = (λ p. ground (arith, p, fail), f.least);
  }

  add_row :
      (r : R) (rs : List R) (found : Option R)
      → test r ≡ true
      → Finds before test rs found
      → Finds before test (r ∷ rs) (earlier before r found)
  add_row r rs none pass n = start_first r rs pass n
  add_row r rs (some s) pass f = keep_first r s rs pass f

  pub first_by_lem : (rs : List R) → Finds before test rs (first_by before (select_where test rs))
  unfolding first_by select_where
  first_by_lem [] = record { fails = tt }
  first_by_lem (r ∷ rs) = elim (Bool-cases (test r)) [
    | inl pass ↦ rw pass (add_row r rs _ pass (first_by_lem rs))
    | inr fail ↦ rw fail (skip_row r rs _ fail (first_by_lem rs))
  ]
