-- ===== src/Sql/Sweep.antt =====
-- An UPDATE that ends some rows, followed by one that claims the first row that passes a test: what
-- the two do to each row of the table that they started from.
use mathlib.Core.List.{Memᴰ}
use gasu_schedule_bot.Base.{
  ℕ, ◌≡◌, ◌≢◌, refl, sym, ap, Bool, true, false, Option, none, some, List, [], ◌∷◌, map, arith, All,
  All-mono, All-of, Bool-cases, inl, inr, ◌==◌, if◌then◌else◌,
}
use gasu_schedule_bot.Sql.{update_where}
use gasu_schedule_bot.Sql.Unique.{Distinct, same_row}
use gasu_schedule_bot.Sql.First.{Finds}

module _ {R : Type 0} (id_of : R → ℕ) (before : R → R → Bool) (test exhausted : R → Bool)
    (expire change : R → R) where
  abbrev pub ended : R → R
  ended x = if exhausted x then expire x else x

  -- The row x after both updates.
  abbrev pub row_after : Option R → R → R
  row_after none x = ended x
  row_after (some j) x = if id_of (ended x) == id_of j then change (ended x) else ended x

  abbrev pub table_after : Option R → List R → List R
  table_after none rows = update_where exhausted expire rows
  table_after (some j) rows =
      update_where (λ x. id_of x == id_of j) change (update_where exhausted expire rows)

  pub table_after-map :
      (found : Option R) (rows : List R) → table_after found rows ≡ map (row_after found) rows
  unfolding update_where
  table_after-map none [] = refl
  table_after-map none (x ∷ rows) = ap (λ l. ended x ∷ l) (table_after-map none rows)
  table_after-map (some j) [] = refl
  table_after-map (some j) (x ∷ rows) =
      ap (λ l. row_after (some j) x ∷ l) (table_after-map (some j) rows)

  -- The found row is claimed, an exhausted one is ended, and any other is kept.
  pub record Updated (found : Option R) (x : R) : Type 0 where
    pub claimed : found ≡ some x → row_after found x ≡ change x
    pub failed : exhausted x ≡ true → row_after found x ≡ expire x
    pub kept : exhausted x ≡ false → found ≢ some x → row_after found x ≡ x

  module _ (apart : (x : R) → test x ≡ true → exhausted x ≡ false)
      (spent : (x : R) → test (expire x) ≡ false)
      (named : (x : R) → id_of (expire x) ≡ id_of x) where
    not_ended : (x : R) → exhausted x ≡ true → test x ≡ false
    not_ended x e = elim (Bool-cases (test x)) [
      | inl pass ↦ let f = apart x pass in absurd (ground (arith, f, e))
      | inr fail ↦ fail
    ]

    row_before_sweep :
        (j : R) (rows : List R)
        → test j ≡ true
        → Memᴰ j (update_where exhausted expire rows)
        → Memᴰ j rows
    unfolding update_where
    row_before_sweep j [] pass m = elim m [ ]
    row_before_sweep j (x ∷ rows) pass (Memᴰ.head here) = elim (Bool-cases (exhausted x)) [
      | inl e ↦
          let same : j ≡ expire x = rw e at here in
          let fail = rw (← same) at (spent x) in absurd (ground (arith, fail, pass))
      | inr e ↦ Memᴰ.head (rw e at here)
    ]
    row_before_sweep j (x ∷ rows) pass (Memᴰ.tail there) =
        Memᴰ.tail (row_before_sweep j rows pass there)

    all_before_sweep :
        (Q : R → Type 0) (rows : List R)
        → All (λ x. test x ≡ true → Q x) (update_where exhausted expire rows)
        → All (λ x. test x ≡ true → Q x) rows
    unfolding update_where
    all_before_sweep Q [] h = tt
    all_before_sweep Q (x ∷ rows) h =
        (λ pass. (rw (apart x pass) at h.0) pass, all_before_sweep Q rows h.1)

    -- The claimed row stands in the table as it was before the first update.
    pub found_before_sweep :
        (found : Option R) (rows : List R)
        → Finds before test (update_where exhausted expire rows) found
        → Finds before test rows found
    found_before_sweep none rows n = record {
      fails =
          All-mono (λ x. test x ≡ true → test x ≡ false) (λ x. test x ≡ false)
            (λ x h. elim (Bool-cases (test x)) [ inl pass ↦ h pass | inr fail ↦ fail ]) rows
            (all_before_sweep (λ x. test x ≡ false) rows
              (All-mono (λ x. test x ≡ false) (λ x. test x ≡ true → test x ≡ false) (λ x h pass. h)
                (update_where exhausted expire rows) n.fails));
    }
    found_before_sweep (some j) rows f = record {
      row = row_before_sweep j rows f.passes f.row;
      passes = f.passes;
      least = all_before_sweep (λ x. before x j ≡ false) rows f.least;
    }

    found_none-Updated : (x : R) → Updated none x
    found_none-Updated x = record {
      claimed = (λ h. cc);
      failed = (λ e. rw e refl);
      kept = (λ e h. rw e refl);
    }

    row-Updated : (j x : R) → test j ≡ true → (id_of x ≡ id_of j → x ≡ j) → Updated (some j) x
    row-Updated j x pass same = record { claimed = is_claimed; failed = is_failed; kept = is_kept }
      where
        is_claimed : some j ≡ some x → row_after (some j) x ≡ change x
        is_claimed h =
            let eq : j ≡ x = cc in let no = rw eq at (apart j pass) in rw (eq, no) (ground arith)

        other : x ≢ j → (id_of x == id_of j) ≡ false
        other h = elim (Bool-cases (id_of x == id_of j)) [
          | inl e ↦ absurd (h (same (ground (arith, e))))
          | inr e ↦ e
        ]

        is_failed : exhausted x ≡ true → row_after (some j) x ≡ expire x
        is_failed e =
            let differ : x ≢ j = λ eq.
              let no = apart j pass in let yes = rw eq at e in absurd (ground (arith, no, yes)) in
            rw (e, named x, other differ) refl

        is_kept : exhausted x ≡ false → some j ≢ some x → row_after (some j) x ≡ x
        is_kept e h = rw (e, other (λ eq. h (ap some (sym eq)))) refl

    pub rows-Updated :
        (found : Option R) (rows : List R)
        → Distinct (map id_of rows)
        → Finds before test rows found
        → All (Updated found) rows
    rows-Updated none rows d n = All-of (Updated none) found_none-Updated rows
    rows-Updated (some j) rows d f =
        All-mono (λ x. id_of x ≡ id_of j → x ≡ j) (Updated (some j))
          (λ x same. row-Updated j x f.passes same) rows (same_row id_of j rows f.row d)
