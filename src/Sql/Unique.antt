-- ===== src/Sql/Unique.antt =====
-- Tables in which a column is unique: a row is found by it, and an update by it changes one row.
use mathlib.Core.List.{Memᴰ}
use gasu_schedule_bot.Base.{
  ℕ, subst, ◌≡◌, refl, sym, ap, ap₂, ◌≢◌, Bool, true, false, ◌&&◌, List, [], ◌∷◌, ◌++◌, arith, All,
  All-append, ◌==◌, if◌then◌else◌, Bool-cases, inl, inr, map,
}
use gasu_schedule_bot.Sql.{update_where, returning}

-- No element is listed twice.
abbrev pub Distinct {ℓ} : {K : Type ℓ} → List K → Type ℓ
Distinct [] = Unit
Distinct (k ∷ ks) = All (λ j. k ≢ j) ks × Distinct ks

module _ {ℓ κ} {R : Type ℓ} {K : Type κ} (key : R → K) where
  pub map-update_where :
      (test : R → Bool) (change : R → R)
      → ((r : R) → key (change r) ≡ key r)
      → (rs : List R) → map key (update_where test change rs) ≡ map key rs
  unfolding update_where
  map-update_where test change same [] = refl
  map-update_where test change same (r ∷ rs) =
      ap₂ ◌∷◌ (kept (test r)) (map-update_where test change same rs)
    where
      kept : (b : Bool) → key (if b then change r else r) ≡ key r
      kept true = same r
      kept false = refl

module _ {ℓ} {R : Type ℓ} (id_of : R → ℕ) (r : R) where
  absent_returning :
      (test : R → Bool) (change : R → R) (rs : List R)
      → All (λ j. id_of r ≢ j) (map id_of rs)
      → returning (λ x. id_of x == id_of r && test x) change rs ≡ []
  unfolding returning
  absent_returning test change [] h = refl
  absent_returning test change (x ∷ rs) h = ground (arith, h.0, absent_returning test change rs h.1)

  absent_update :
      (test : R → Bool) (change : R → R) (rs : List R)
      → All (λ j. id_of r ≢ j) (map id_of rs)
      → update_where (λ x. id_of x == id_of r && test x) change rs ≡ rs
  unfolding update_where
  absent_update test change [] h = refl
  absent_update test change (x ∷ rs) h = ground (arith, h.0, absent_update test change rs h.1)

  absent_update_id :
      (change : R → R) (rs : List R)
      → All (λ j. id_of r ≢ j) (map id_of rs)
      → update_where (λ x. id_of x == id_of r) change rs ≡ rs
  unfolding update_where
  absent_update_id change [] h = refl
  absent_update_id change (x ∷ rs) h = ground (arith, h.0, absent_update_id change rs h.1)

  ne_of_mem : (k : ℕ) (rs : List R) → All (λ j. k ≢ j) (map id_of rs) → Memᴰ r rs → k ≢ id_of r
  ne_of_mem k [] h m = elim m [ ]
  ne_of_mem k (x ∷ rs) h (Memᴰ.head here) = rw here h.0
  ne_of_mem k (x ∷ rs) h (Memᴰ.tail there) = ne_of_mem k rs h.1 there

  module _ (test : R → Bool) (change : R → R) (pass : test r ≡ true) where
    -- The statement that updates the row with the id of `r`, if it passes the test, returns it alone.
    pub returning_one :
        (rs : List R)
        → Memᴰ r rs
        → Distinct (map id_of rs)
        → returning (λ x. id_of x == id_of r && test x) change rs ≡ change r ∷ []
    unfolding returning
    returning_one [] m d = elim m [ ]
    returning_one (x ∷ rs) (Memᴰ.head here) (new, rest) =
        rw (← here) (ground (arith, pass, absent_returning test change rs (rw here new)))
    returning_one (x ∷ rs) (Memᴰ.tail there) (new, rest) =
        ground (arith, ne_of_mem (id_of x) rs new there, returning_one rs there rest)

    -- It changes that row and no other.
    pub update_one :
        (rs : List R)
        → Memᴰ r rs
        → Distinct (map id_of rs)
        → update_where (λ x. id_of x == id_of r && test x) change rs
          ≡ update_where (λ x. id_of x == id_of r) change rs
    unfolding update_where
    update_one [] m d = elim m [ ]
    update_one (x ∷ rs) (Memᴰ.head here) (new, rest) = rw (← here) (
        ground (
          arith,
          pass,
          absent_update test change rs (rw here new),
          absent_update_id change rs (rw here new),
        ))
    update_one (x ∷ rs) (Memᴰ.tail there) (new, rest) =
        ground (arith, ne_of_mem (id_of x) rs new there, update_one rs there rest)

module _ {ℓ κ} {R : Type ℓ} {K : Type κ} (key : R → K) where
  pub map-append_row : (rs : List R) (r : R) → map key (rs ++ r ∷ []) ≡ map key rs ++ key r ∷ []
  map-append_row [] r = refl
  map-append_row (x ∷ rs) r = ap (◌∷◌ (key x)) (map-append_row rs r)

module _ {ℓ} {K : Type ℓ} (k : K) where
  -- A new element at the end keeps a list distinct.
  pub Distinct-append_new :
      (ks : List K) → All (λ j. j ≢ k) ks → Distinct ks → Distinct (ks ++ k ∷ [])
  Distinct-append_new [] new d = (tt, tt)
  Distinct-append_new (j ∷ ks) new d =
      (All-append (λ i. j ≢ i) ks (k ∷ []) d.0 (new.0, tt), Distinct-append_new ks new.1 d.1)

  pub mem-append_left : (ks ls : List K) → Memᴰ k ks → Memᴰ k (ks ++ ls)
  mem-append_left [] ls m = elim m [ ]
  mem-append_left (j ∷ ks) ls (Memᴰ.head here) = Memᴰ.head here
  mem-append_left (j ∷ ks) ls (Memᴰ.tail there) = Memᴰ.tail (mem-append_left ks ls there)

module _ {ℓ} {R : Type ℓ} where
  -- A statement whose condition no row meets changes nothing and returns nothing.
  pub update_none :
      (test : R → Bool) (change : R → R) (rs : List R)
      → All (λ r. test r ≡ false) rs
      → update_where test change rs ≡ rs
  unfolding update_where
  update_none test change [] h = refl
  update_none test change (r ∷ rs) h = rw h.0 (ap (◌∷◌ r) (update_none test change rs h.1))

  pub returning_none :
      (test : R → Bool) (change : R → R) (rs : List R)
      → All (λ r. test r ≡ false) rs
      → returning test change rs ≡ []
  unfolding returning
  returning_none test change [] h = refl
  returning_none test change (r ∷ rs) h = rw h.0 (returning_none test change rs h.1)

  pub All-mem {κ} : (P : R → Type κ) (rs : List R) (r : R) → All P rs → Memᴰ r rs → P r
  All-mem P [] r h m = elim m [ ]
  All-mem P (x ∷ rs) r h (Memᴰ.head here) = subst P (sym here) h.0
  All-mem P (x ∷ rs) r h (Memᴰ.tail there) = All-mem P rs r h.1 there

  pub mem-map {κ} :
      {K : Type κ} (key : R → K) (rs : List R) (r : R) → Memᴰ r rs → Memᴰ (key r) (map key rs)
  mem-map key [] r m = elim m [ ]
  mem-map key (x ∷ rs) r (Memᴰ.head here) = Memᴰ.head (ap key here)
  mem-map key (x ∷ rs) r (Memᴰ.tail there) = Memᴰ.tail (mem-map key rs r there)

module _ {ℓ κ} {R : Type ℓ} {K : Type κ} (key : R → K) (r : R) where
  none_same :
      (rs : List R) → All (λ k. key r ≢ k) (map key rs) → All (λ x. key x ≡ key r → x ≡ r) rs
  none_same [] h = tt
  none_same (x ∷ rs) h = (λ e. absurd (h.0 (sym e)), none_same rs h.1)

  -- Where a column is unique, a row with the value of `r` in it is `r`.
  pub same_row :
      (rs : List R) → Memᴰ r rs → Distinct (map key rs) → All (λ x. key x ≡ key r → x ≡ r) rs
  same_row [] m d = elim m [ ]
  same_row (x ∷ rs) (Memᴰ.head here) d = (
    λ e. sym here,
    none_same rs (subst (λ k. All (λ j. k ≢ j) (map key rs)) (ap key (sym here)) d.0),
  )
  same_row (x ∷ rs) (Memᴰ.tail there) d = (
    λ e. absurd (All-mem (λ j. key x ≢ j) (map key rs) (key r) d.0 (mem-map key rs r there) e),
    same_row rs there d.1,
  )

module _ {ℓ κ} {R : Type ℓ} (Q : R → Type κ) (test : R → Bool) (change : R → R) where
  -- What holds of every row after an update.
  pub All-update_where :
      (rs : List R)
      → All (λ r. (test r ≡ true → Q (change r)) × (test r ≡ false → Q r)) rs
      → All Q (update_where test change rs)
  unfolding update_where
  All-update_where [] h = tt
  All-update_where (r ∷ rs) h = elim (Bool-cases (test r)) [
    | inl e ↦ rw e (h.0.0 e, All-update_where rs h.1)
    | inr e ↦ rw e (h.0.1 e, All-update_where rs h.1)
  ]
