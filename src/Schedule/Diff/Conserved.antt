-- ===== src/Schedule/Diff/Conserved.antt =====
-- The matching of lessons neither loses nor repeats a lesson.
use mathlib.Core.List.{Perm, append_assoc}
use mathlib.Core.List.Perm
use gasu_schedule_bot.Base.{
  ℕ, suc, ◌≡◌, refl, sym, ap, subst, Option, none, some, List, [], ◌∷◌, ◌++◌, map, ◌==◌, Bool-cases,
  inl, inr,
}
use gasu_schedule_bot.Sql.Unique.{map-append_row}
use gasu_schedule_bot.Schedule.Lesson.{Unicode, Lesson, nonempty}
use gasu_schedule_bot.Schedule.Diff.{
  Floats, Entry, enumerate, Matching, put_back, take_index, paired, pair_up, old_index_of,
  pair_found, match_sources, Candidate, match_candidates, match_lessons,
}

abbrev pub lessons_in : List Entry → List Lesson
lessons_in = map (λ e. e.1)

lessons_in-enumerate : (i : ℕ) (lessons : List Lesson) → lessons_in (enumerate i lessons) ≡ lessons
lessons_in-enumerate i [] = refl
lessons_in-enumerate i (l ∷ lessons) = ap (◌∷◌ l) (lessons_in-enumerate (suc i) lessons)

some_both :
    {l l' : Lesson} {rest rest' : List Entry}
    → ◌≡◌ {A = Option (Lesson × List Entry)} (some (l, rest)) (some (l', rest'))
    → (l ≡ l') × (rest ≡ rest')
some_both h = (cc, cc)

-- A lesson that is put back in front of the later ones was found among them.
put_back-some :
    (entry : Entry) (found : Option (Lesson × List Entry)) {l : Lesson} {rest : List Entry}
    → put_back entry found ≡ some (l, rest)
    → (later : List Entry) × (found ≡ some (l, later)) × (entry ∷ later ≡ rest)
put_back-some entry none h = cc
put_back-some entry (some (l', later)) h =
    let (same, rests) = some_both h in (later, ap (λ x. some (x, later)) same, rests)

Perm-take_index :
    (i : ℕ) (entries : List Entry) {l : Lesson} {rest : List Entry}
    → take_index i entries ≡ some (l, rest)
    → Perm (lessons_in entries) (l ∷ lessons_in rest)
unfolding take_index
Perm-take_index i [] h = cc
Perm-take_index i (entry ∷ entries) {l} {rest} h = elim (Bool-cases (entry.0 == i)) [
  | inl here ↦
      let (lesson, rests) = some_both (rw here at h) in
      subst (λ x. Perm (entry.1 ∷ lessons_in entries) (x ∷ lessons_in rest)) lesson
        (subst (λ es. Perm (entry.1 ∷ lessons_in entries) (entry.1 ∷ lessons_in es)) rests Perm.rfl)
  | inr other ↦
      let (later, found, rests) = put_back-some entry (take_index i entries) (rw other at h) in
      subst (λ es. Perm (entry.1 ∷ lessons_in entries) (l ∷ lessons_in es)) rests
        (Perm.trans (Perm.cons entry.1 (Perm-take_index i entries found))
          (Perm.swap l entry.1 (lessons_in later)))
]

-- One side of a matching: the lessons paired and those that remain.
abbrev Conserves : List Lesson → List Entry → List Lesson → Type 0
Conserves firsts remaining lessons = Perm (firsts ++ lessons_in remaining) lessons

abbrev pub firsts : List (Lesson × Lesson) → List Lesson
firsts = map (λ p. p.0)

abbrev pub seconds_of : List (Lesson × Lesson) → List Lesson
seconds_of = map (λ p. p.1)

Perm-moved :
    (done : List Lesson) (entries rest : List Entry) (l : Lesson) (lessons : List Lesson)
    → Perm (lessons_in entries) (l ∷ lessons_in rest)
    → Perm (done ++ lessons_in entries) lessons
    → Perm ((done ++ l ∷ []) ++ lessons_in rest) lessons
Perm-moved done entries rest l lessons taken all =
    subst (λ xs. Perm xs lessons) (sym (append_assoc done (l ∷ []) (lessons_in rest)))
      (Perm.trans (Perm.append_left done (Perm.symm taken)) all)

module _ (old new : List Lesson) where
  -- Every lesson is in one pair or remains, once.
  abbrev pub IsComplete : Matching → Type 0
  IsComplete m =
      Perm (firsts m.pairs ++ lessons_in m.remaining_old) old
      × Perm (seconds_of m.pairs ++ lessons_in m.remaining_new) new

  paired-IsComplete :
      (m : Matching) (i j : ℕ) (a b : Option (Lesson × List Entry))
      → take_index i m.remaining_old ≡ a
      → take_index j m.remaining_new ≡ b
      → IsComplete m
      → IsComplete (paired m a b)
  paired-IsComplete m i j none b found found' h = h
  paired-IsComplete m i j (some _) none found found' h = h
  paired-IsComplete m i j (some (o, olds)) (some (n, news)) found found' h = (
    subst (λ xs. Perm (xs ++ lessons_in olds) old) (sym (map-append_row (λ p. p.0) m.pairs (o, n)))
        (Perm-moved (firsts m.pairs) m.remaining_old olds o old
          (Perm-take_index i m.remaining_old found) h.0),
    subst (λ xs. Perm (xs ++ lessons_in news) new) (sym (map-append_row (λ p. p.1) m.pairs (o, n)))
        (Perm-moved (seconds_of m.pairs) m.remaining_new news n new
          (Perm-take_index j m.remaining_new found') h.1),
  )

  pair_up-IsComplete : (i j : ℕ) (m : Matching) → IsComplete m → IsComplete (pair_up i j m)
  unfolding pair_up
  pair_up-IsComplete i j m h = paired-IsComplete m i j _ _ refl refl h

  pair_found-IsComplete :
      (found : Option ℕ) (j : ℕ) (m : Matching) → IsComplete m → IsComplete (pair_found found j m)
  pair_found-IsComplete none j m h = h
  pair_found-IsComplete (some i) j m h = pair_up-IsComplete i j m h

  match_sources-IsComplete :
      (olds news : List Entry) (m : Matching)
      → IsComplete m
      → IsComplete (match_sources olds news m)
  unfolding match_sources
  match_sources-IsComplete olds [] m h = h
  match_sources-IsComplete olds (n ∷ news) m h =
      match_sources-IsComplete olds news _
        (pair_found-IsComplete (old_index_of olds (nonempty n.1.source_id)) n.0 m h)

  match_candidates-IsComplete :
      (u : Unicode) (f : Floats) (cs : List (Candidate u f)) (m : Matching)
      → IsComplete m
      → IsComplete (match_candidates u f cs m)
  unfolding match_candidates
  match_candidates-IsComplete u f [] m h = h
  match_candidates-IsComplete u f (c ∷ cs) m h =
      match_candidates-IsComplete u f cs _ (pair_up-IsComplete c.old_index c.new_index m h)

-- The lessons of the pairs and those left unmatched are, up to order, the lessons of the two
-- schedules, each as often as the schedule lists it.
pub match_lessons-IsComplete :
    (u : Unicode) (f : Floats) (old new : List Lesson)
    → IsComplete old new (match_lessons u f old new)
unfolding match_lessons
match_lessons-IsComplete u f old new = match_candidates-IsComplete old new u f _ _ (
    match_sources-IsComplete old new (enumerate 0 old) (enumerate 0 new) _ (
      subst (λ xs. Perm xs old) (sym (lessons_in-enumerate 0 old)) Perm.rfl,
      subst (λ xs. Perm xs new) (sym (lessons_in-enumerate 0 new)) Perm.rfl,
    ))
