-- ===== src/Schedule/Sync/Rows.antt =====
-- Rows that are found: markers by their key, snapshots by their id, and the newest of a selection.
use gasu_schedule_bot.Base.{
  ℕ, ◌≡◌, ◌≢◌, refl, sym, ap, ◌∙◌, subst, Bool, true, false, Bool-cases, inl, inr, Option, none,
  some, List, [], ◌∷◌, ◌++◌, map, arith, ◌==◌, ==_refl, Text, text_eq, text_eq_refl, All,
}
use gasu_schedule_bot.Sql.{select_where, update_where, first_by, earlier}
use gasu_schedule_bot.Sql.Unique.{Distinct}
use gasu_schedule_bot.Schedule.Store.{Marker, MarkerRow, SnapshotRow, snapshot_key}
use gasu_schedule_bot.Schedule.Store.Loading.{find_marker, find_snapshot}
use gasu_schedule_bot.Schedule.Sync.{put_marker}

pub some_inj : {R : Type 0} {a b : R} → ◌≡◌ {A = Option R} (some a) (some b) → a ≡ b
some_inj e = cc

find-append :
    (key : Text) (row : MarkerRow) (rows : List MarkerRow)
    → row.key ≡ key
    → find_marker key rows ≡ none
    → find_marker key (rows ++ row ∷ []) ≡ some row
unfolding find_marker
find-append key row [] same h = rw (same, text_eq_refl key) refl
find-append key row (r ∷ rows) same h = elim (Bool-cases (text_eq r.key key)) [
  | inl e ↦ cc (rw e at h)
  | inr e ↦ rw e (find-append key row rows same (rw e at h))
]

module _ (key : Text) (value : Option Marker) (at : ℕ) where
  abbrev rewritten : MarkerRow → MarkerRow
  rewritten row = record row { value = value; updated_at = at }

  find-update :
      (rows : List MarkerRow) {row : MarkerRow}
      → find_marker key rows ≡ some row
      → (r : MarkerRow) × (find_marker key (update_where (λ x. text_eq x.key key) rewritten rows)
          ≡ some (rewritten r))
  unfolding find_marker update_where
  find-update [] h = cc
  find-update (r ∷ rows) h = elim (Bool-cases (text_eq r.key key)) [
    | inl e ↦ (r, rw (e, e) refl)
    | inr e ↦ let (x, found) = find-update rows (rw e at h) in (x, rw (e, e) found)
  ]

  -- A marker that is written is the one that is found.
  pub find-put_marker :
      (found : Option MarkerRow) (rows : List MarkerRow)
      → find_marker key rows ≡ found
      → (r : MarkerRow) × (find_marker key (put_marker key value at found rows) ≡ some r)
        × (r.value ≡ value)
  find-put_marker none rows h =
      (record { key = key; value = value; updated_at = at }, find-append key _ rows refl h, refl)
  find-put_marker (some x) rows h =
      let (r, found) = find-update rows h in (rewritten r, found, refl)

find-other :
    (id : ℕ) (row : SnapshotRow) (rows : List SnapshotRow)
    → row.id ≢ id
    → find_snapshot id (row ∷ rows) ≡ find_snapshot id rows
unfolding find_snapshot
find-other id row rows apart = let e : (row.id == id) ≡ false = ground (arith, apart) in rw e refl

-- With distinct ids, every row is found by its id.
pub Distinct-found :
    (rows : List SnapshotRow)
    → Distinct (map snapshot_key rows)
    → All (λ r. find_snapshot r.id rows ≡ some r) rows
Distinct-found [] d = tt
Distinct-found (row ∷ rows) d = (here, later rows rows d.0 (Distinct-found rows d.1))
  where
    here : find_snapshot row.id (row ∷ rows) ≡ some row
    here = unfold find_snapshot in rw (==_refl row.id) refl

    later :
        (seen all : List SnapshotRow)
        → All (λ k. row.id ≢ k) (map snapshot_key seen)
        → All (λ r. find_snapshot r.id all ≡ some r) seen
        → All (λ r. find_snapshot r.id (row ∷ all) ≡ some r) seen
    later [] all new h = tt
    later (r ∷ seen) all new h = (find-other r.id row all new.0 ∙ h.0, later seen all new.1 h.1)

pub select_where-All :
    {R : Type 0} (P : R → Type 0) (test : R → Bool) (rows : List R)
    → All P rows
    → All (λ r. P r × (test r ≡ true)) (select_where test rows)
unfolding select_where
select_where-All P test [] h = tt
select_where-All P test (r ∷ rows) h = elim (Bool-cases (test r)) [
  | inl e ↦ rw e ((h.0, e), select_where-All P test rows h.1)
  | inr e ↦ rw e (select_where-All P test rows h.1)
]

earlier-All :
    {R : Type 0} (P : R → Type 0) (before : R → R → Bool) (x : R) (found : Option R) {r : R}
    → P x
    → ((s : R) → found ≡ some s → P s)
    → earlier before x found ≡ some r
    → P r
earlier-All P before x none h later e = subst P (some_inj e) h
earlier-All P before x (some s) h later e = elim (Bool-cases (before s x)) [
  | inl b ↦ subst P (some_inj (rw b at e)) (later s refl)
  | inr b ↦ subst P (some_inj (rw b at e)) h
]

pub first_by-All :
    {R : Type 0} (P : R → Type 0) (before : R → R → Bool) (rows : List R) {r : R}
    → All P rows
    → first_by before rows ≡ some r
    → P r
unfolding first_by
first_by-All P before [] h e = cc
first_by-All P before (x ∷ rows) h e =
    earlier-All P before x (first_by before rows) h.0
      (λ s found. first_by-All P before rows h.1 found) e

pub found_id :
    (id : ℕ) (rows : List SnapshotRow) {row : SnapshotRow}
    → find_snapshot id rows ≡ some row
    → row.id ≡ id
unfolding find_snapshot
found_id id [] h = cc
found_id id (r ∷ rows) h = elim (Bool-cases (r.id == id)) [
  | inl e ↦
      let same = some_inj (rw e at h) in
      let e' : r.id ≡ id = ground (arith, e) in ap (λ x. x.id) (sym same) ∙ e'
  | inr e ↦ found_id id rows (rw e at h)
]
