-- ===== src/Inbox/Ledger.antt =====
-- An update is admitted once, finished once, and closed exactly when its outcome is recorded.
use gasu_schedule_bot.Base.{
  ℕ, ◌≡◌, refl, Bool, true, false, ◌||◌, none, List, [], ◌∷◌, ◌++◌, ◌==◌, ==_iff, exists, ok, arith,
  All, All-mono, All-append, Bool-cases, inl, inr, is_some,
}
use gasu_schedule_bot.Sql.{update_where}
use gasu_schedule_bot.Sql.Unique.{All-update_where}
use gasu_schedule_bot.Inbox.{
  InboxUpdate, ProcessedUpdate, Inbox, Outcome, outcomes, of_outcome, of_update, admit_update,
  close_update, processed,
}

pub exists-append :
    {R : Type 0} (test : R → Bool) (rows : List R) (r : R)
    → exists test (rows ++ r ∷ []) ≡ (exists test rows || test r)
exists-append test [] r = ground arith
exists-append test (x ∷ rows) r = ground (arith, exists-append test rows r)

module _ {P : Type 0} where
  -- The foreign key holds, and a row is closed exactly if it has an outcome.
  pub record IsConsistent (inbox : Inbox P) : Type 0 where
    pub known : All (λ p. exists (of_update p.update_id) inbox.updates ≡ true) inbox.processed
    pub closed :
        All
          (λ u. is_some u.processed_at ≡ exists (of_outcome u.update_id) inbox.processed)
          inbox.updates

  pub inbox_of :
      {b b' : Bool} {i i' : Inbox P}
      → ◌≡◌ {A = Outcome (Bool × Inbox P)} (ok (b, i)) (ok (b', i'))
      → i' ≡ i
  inbox_of h = ground arith

  update_known :
      (id at k : ℕ) (updates : List (InboxUpdate P))
      → exists (of_update k) (update_where (of_update id) (processed at) updates)
        ≡ exists (of_update k) updates
  unfolding update_where
  update_known id at k [] = refl
  update_known id at k (u ∷ updates) = ground (arith, update_known id at k updates)

  not_recorded :
      (id : ℕ) (updates : List (InboxUpdate P)) (outcomes : List ProcessedUpdate)
      → exists (of_update id) updates ≡ false
      → All (λ p. exists (of_update p.update_id) updates ≡ true) outcomes
      → exists (of_outcome id) outcomes ≡ false
  not_recorded id updates [] h k = refl
  not_recorded id updates (p ∷ outcomes) h k = elim (Bool-cases (p.update_id == id)) [
    | inl e ↦ let is_id = (==_iff p.update_id id).0 e in absurd (ground (arith, h, rw is_id at k.0))
    | inr e ↦ rw e (not_recorded id updates outcomes h k.1)
  ]

  pub admit-IsConsistent :
      (row : InboxUpdate P) (inbox : Inbox P)
      → row.processed_at ≡ none
      → IsConsistent inbox
      → IsConsistent (admit_update row inbox).1
  admit-IsConsistent row inbox unclosed c =
      elim (Bool-cases (exists (of_update row.update_id) inbox.updates)) [
        | inl e ↦ rw e c
        | inr e ↦ rw e (record {
          known =
              All-mono (λ p. exists (of_update p.update_id) inbox.updates ≡ true)
                (λ p. exists (of_update p.update_id) (inbox.updates ++ row ∷ []) ≡ true)
                (λ p h.
                  rw (exists-append (of_update p.update_id) inbox.updates row) (ground (arith, h)))
                inbox.processed c.known;
          closed =
              All-append
                (λ u. is_some u.processed_at ≡ exists (of_outcome u.update_id) inbox.processed)
                inbox.updates (row ∷ []) c.closed
                (
                  rw (unclosed, not_recorded row.update_id inbox.updates inbox.processed e c.known)
                      refl,
                  tt,
                );
        })
      ]

  recorded-IsConsistent :
      (row : ProcessedUpdate) (inbox : Inbox P)
      → exists (of_update row.update_id) inbox.updates ≡ true
      → IsConsistent inbox
      → IsConsistent (record {
        updates = update_where (of_update row.update_id) (processed row.processed_at) inbox.updates;
        processed = inbox.processed ++ row ∷ [];
      })
  recorded-IsConsistent row inbox there c = record {
    known =
        All-append
          (λ p.
            exists (of_update p.update_id)
              (update_where (of_update row.update_id) (processed row.processed_at) inbox.updates)
            ≡ true)
          inbox.processed (row ∷ [])
          (All-mono (λ p. exists (of_update p.update_id) inbox.updates ≡ true)
            (λ p. exists (of_update p.update_id) _ ≡ true)
            (λ p h. rw (update_known row.update_id row.processed_at p.update_id inbox.updates) h)
            inbox.processed c.known)
          (rw (update_known row.update_id row.processed_at row.update_id inbox.updates) there, tt);
    closed =
        All-update_where
          (λ u.
            is_some u.processed_at ≡ exists (of_outcome u.update_id) (inbox.processed ++ row ∷ []))
          (of_update row.update_id) (processed row.processed_at) inbox.updates
          (All-mono (λ u. is_some u.processed_at ≡ exists (of_outcome u.update_id) inbox.processed)
            _
            (λ u h. (
              λ hit.
                  rw (exists-append (of_outcome u.update_id) inbox.processed row)
                    (ground (arith, hit)),
              λ miss.
                  rw (exists-append (of_outcome u.update_id) inbox.processed row)
                    (ground (arith, h, miss)),
            ))
            inbox.updates c.closed);
  }

  pub close-IsConsistent :
      (row : ProcessedUpdate) (inbox : Inbox P) {answer : Bool} {after : Inbox P}
      → IsConsistent inbox
      → close_update row inbox ≡ ok (answer, after)
      → IsConsistent after
  close-IsConsistent row inbox {answer} {after} c h =
      elim (Bool-cases (exists (of_outcome row.update_id) inbox.processed)) [
        | inl e ↦ rw (inbox_of (rw e at h)) c
        | inr e ↦ elim (Bool-cases (exists (of_update row.update_id) inbox.updates)) [
          | inl there ↦ rw (inbox_of (rw (e, there) at h)) (recorded-IsConsistent row inbox there c)
          | inr missing ↦ cc (rw (e, missing) at h)
        ]
      ]
