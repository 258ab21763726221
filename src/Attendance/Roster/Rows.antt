-- ===== src/Attendance/Roster/Rows.antt =====
-- Rows that the queries of the summary find.
use mathlib.Core.List.{Memᴰ, Permᴰ}
use gasu_schedule_bot.Base.{
  ◌∙◌, ℕ, ◌≡◌, refl, sym, ap, Bool, true, some, List, [], ◌∷◌, arith, All, Bool-cases, inl, inr,
  ◌==◌, exists,
}
use gasu_schedule_bot.Base.Int.{ℤ, pos, negsuc, int_eq}
use gasu_schedule_bot.Attendance.Service.{first_where}

pub int_eq_sound : (a b : ℤ) → int_eq a b ≡ true → a ≡ b
int_eq_sound (pos a) (pos b) h = ap pos (ground (arith, h))
int_eq_sound (negsuc a) (negsuc b) h = ap negsuc (ground (arith, h))
int_eq_sound (pos a) (negsuc b) h = cc
int_eq_sound (negsuc a) (pos b) h = cc

module _ {R : Type 0} where
  pub found_row :
      (test : R → Bool) (rows : List R) (r : R)
      → first_where test rows ≡ some r
      → Memᴰ r rows × (test r ≡ true)
  unfolding first_where
  found_row test [] r h = cc
  found_row test (x ∷ rows) r h = elim (Bool-cases (test x)) [
    | inl e ↦
        let same : some x ≡ some r = rw e at h in
        let eq : x ≡ r = cc in (Memᴰ.head (sym eq), rw eq at e)
    | inr e ↦ let (row, pass) = found_row test rows r (rw e at h) in (Memᴰ.tail row, pass)
  ]

  pub row_by_key :
      (key : R → ℕ) (rows : List R) (r : R)
      → Memᴰ r rows
      → All (λ x. key x ≡ key r → x ≡ r) rows
      → first_where (λ x. key x == key r) rows ≡ some r
  unfolding first_where
  row_by_key key [] r m same = elim m [ ]
  row_by_key key (x ∷ rows) r m same = elim (Bool-cases (key x == key r)) [
    | inl e ↦ rw e (ap some (same.0 (ground (arith, e))))
    | inr e ↦ rw e (elim m [
      | Memᴰ.head here ↦ absurd (let k = ap key here in ground (arith, e, k))
      | Memᴰ.tail there ↦ row_by_key key rows r there same.1
    ])
  ]

  pub exists-row :
      (test : R → Bool) (rows : List R)
      → exists test rows ≡ true
      → (r : R) × Memᴰ r rows × (test r ≡ true)
  exists-row test [] h = cc
  exists-row test (x ∷ rows) h = elim (Bool-cases (test x)) [
    | inl e ↦ (x, Memᴰ.head refl, e)
    | inr e ↦ let (r, row, pass) = exists-row test rows (rw e at h) in (r, Memᴰ.tail row, pass)
  ]

  pub row-exists :
      (test : R → Bool) (rows : List R) (r : R)
      → Memᴰ r rows
      → test r ≡ true
      → exists test rows ≡ true
  row-exists test [] r m pass = elim m [ ]
  row-exists test (x ∷ rows) r (Memᴰ.head here) pass = rw (← here, pass) refl
  row-exists test (x ∷ rows) r (Memᴰ.tail there) pass =
      let rest = row-exists test rows r there pass in ground (arith, rest)

  -- An order of the rows keeps each of them.
  pub row-Perm : {l k : List R} → Permᴰ l k → (r : R) → Memᴰ r l → Memᴰ r k
  row-Perm Permᴰ.nil r m = m
  row-Perm (Permᴰ.cons e d) r (Memᴰ.head here) = Memᴰ.head (here ∙ e)
  row-Perm (Permᴰ.cons e d) r (Memᴰ.tail there) = Memᴰ.tail (row-Perm d r there)
  row-Perm (Permᴰ.swap e₁ e₂) r (Memᴰ.head here) = Memᴰ.tail (Memᴰ.head (here ∙ e₁))
  row-Perm (Permᴰ.swap e₁ e₂) r (Memᴰ.tail (Memᴰ.head here)) = Memᴰ.head (here ∙ e₂)
  row-Perm (Permᴰ.swap e₁ e₂) r (Memᴰ.tail (Memᴰ.tail there)) = Memᴰ.tail (Memᴰ.tail there)
  row-Perm (Permᴰ.trans d₁ d₂) r m = row-Perm d₂ r (row-Perm d₁ r m)
