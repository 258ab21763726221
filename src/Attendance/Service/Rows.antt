-- ===== src/Attendance/Service/Rows.antt =====
-- The first row that passes a test, after a row has been added or changed.
use gasu_schedule_bot.Base.{
  ◌≡◌, refl, ap, Bool, true, false, none, some, List, [], ◌∷◌, ◌++◌, arith, Bool-cases, inl, inr,
  All,
}
use gasu_schedule_bot.Sql.{update_where}
use gasu_schedule_bot.Attendance.Service.{first_where}

module _ {R : Type 0} (test : R → Bool) where
  pub first-append :
      (rows : List R) (r : R)
      → first_where test rows ≡ none
      → test r ≡ true
      → first_where test (rows ++ r ∷ []) ≡ some r
  unfolding first_where
  first-append [] r h t = rw t refl
  first-append (x ∷ rows) r h t = elim (Bool-cases (test x)) [
    | inl e ↦ cc (rw e at h)
    | inr e ↦ rw e (first-append rows r (rw e at h) t)
  ]

  pub first-update :
      (hit : R → Bool) (f : R → R)
      → ((r : R) → test (f r) ≡ test r)
      → (rows : List R) (r : R) → hit r ≡ true
      → first_where test rows ≡ some r
      → first_where test (update_where hit f rows) ≡ some (f r)
  unfolding first_where update_where
  first-update hit f same [] r here h = cc
  first-update hit f same (x ∷ rows) r here h = elim (Bool-cases (test x)) [
    | inl t ↦
        let is_r : x ≡ r = cc (rw t at h) in
        let passes : test r ≡ true = rw is_r at t in rw (is_r, here, same r, passes) refl
    | inr t ↦
        let later = first-update hit f same rows r here (rw t at h) in
        elim (Bool-cases (hit x)) [ inl u ↦ rw (u, same x, t) later | inr u ↦ rw (u, t) later ]
  ]

module _ {R : Type 0} (hit : R → Bool) (f : R → R) where
  pub update_twice :
      ((r : R) → hit (f r) ≡ hit r)
      → ((r : R) → f (f r) ≡ f r)
      → (rows : List R) → update_where hit f (update_where hit f rows) ≡ update_where hit f rows
  unfolding update_where
  update_twice same again [] = refl
  update_twice same again (r ∷ rows) = elim (Bool-cases (hit r)) [
    | inl e ↦ rw (e, same r, e, again r) (ap (◌∷◌ (f r)) (update_twice same again rows))
    | inr e ↦ rw (e, e) (ap (◌∷◌ r) (update_twice same again rows))
  ]

  pub update-append_kept :
      (rows : List R) (r : R)
      → All (λ x. hit x ≡ false) rows
      → f r ≡ r
      → update_where hit f (rows ++ r ∷ []) ≡ rows ++ r ∷ []
  unfolding update_where
  update-append_kept [] r missed kept = ground (arith, kept)
  update-append_kept (x ∷ rows) r missed kept =
      rw missed.0 (ap (◌∷◌ x) (update-append_kept rows r missed.1 kept))
