-- ===== src/Jobs/Queue/Ready.antt =====
-- Which rows `claim_due` may take and in which order, said apart from the conditions and the ORDER BY
-- of its statement, and that the two agree.
use mathlib.Core.List.{Memᴰ}
use gasu_schedule_bot.Base.{
  ℕ, ◌≤◌, ◌<◌, ◌≡◌, ◌≢◌, refl, sym, ◌∙◌, String, true, false, Option, none, some, List, [], ◌∷◌,
  arith, Bool-cases, inl, inr, str_eq, eq_iff, exists, ltb,
}
use gasu_schedule_bot.Jobs.Queue.{
  JobStatus, is_pending, is_running, Job, kind_passes, lease_over, exhausted_expired, expire,
  eligible, claimed_before,
}

-- The lease of a row is over: it has none, or its end has come.
abbrev pub LeaseOver : ℕ → Option ℕ → Type 0
LeaseOver now locked_until = (until : ℕ) → locked_until ≡ some until → until ≤ now

-- The worker asks for the kind, or for every kind.
abbrev pub Asked : Option (List String) → String → Type 0
Asked kinds kind = (asked : List String) → kinds ≡ some asked → Memᴰ kind asked

module _ {P : Type 0} where
  -- A row whose time has come, or whose last worker has lost its lease.
  pub data Due (now : ℕ) (j : Job P) : Type 0 where
    waiting : j.status ≡ JobStatus.pending → j.run_at ≤ now → Due now j
    abandoned : j.status ≡ JobStatus.running → LeaseOver now j.locked_until → Due now j

  pub record Ready (now : ℕ) (kinds : Option (List String)) (j : Job P) : Type 0 where
    pub attempts_left : j.attempts < j.max_attempts
    pub asked : Asked kinds j.kind
    pub due : Due now j

  -- A row whose last attempt has lost its lease.
  pub record Exhausted (now : ℕ) (kinds : Option (List String)) (j : Job P) : Type 0 where
    pub running : j.status ≡ JobStatus.running
    pub over : LeaseOver now j.locked_until
    pub no_attempts : j.max_attempts ≤ j.attempts
    pub asked : Asked kinds j.kind

  -- `a` is taken no later than `b`: waiting rows come before abandoned ones, then the earlier time,
  -- then the lower id.
  pub data NoLater (a b : Job P) : Type 0 where
    waits : a.status ≡ JobStatus.pending → b.status ≡ JobStatus.running → NoLater a b
    earlier : a.status ≡ b.status → a.run_at < b.run_at → NoLater a b
    lower : a.status ≡ b.status → a.run_at ≡ b.run_at → a.id ≤ b.id → NoLater a b

lease_over-LeaseOver :
    (now : ℕ) (until : Option ℕ)
    → (lease_over now until ≡ true → LeaseOver now until)
      × (LeaseOver now until → lease_over now until ≡ true)
lease_over-LeaseOver now none = (λ e u h. cc, λ h. refl)
lease_over-LeaseOver now (some until) = (
  λ e u h. let same : until ≡ u = cc in ground (arith, e, same),
  λ h. let le = h until refl in ground (arith, le),
)

exists-Mem :
    (kind : String) (kinds : List String)
    → (exists (λ k. str_eq kind k) kinds ≡ true → Memᴰ kind kinds)
      × (Memᴰ kind kinds → exists (λ k. str_eq kind k) kinds ≡ true)
exists-Mem kind [] = (λ e. absurd (ground (arith, e)), λ m. elim m [ ])
exists-Mem kind (k ∷ kinds) = (
  λ e. elim (Bool-cases (str_eq kind k)) [
    | inl same ↦ Memᴰ.head ((eq_iff kind k).0 same)
    | inr other ↦ Memᴰ.tail ((exists-Mem kind kinds).0 (rw other at e))
  ],
  λ m. elim m [
    | Memᴰ.head here ↦ rw ((eq_iff kind k).1 here) refl
    | Memᴰ.tail there ↦ let e = (exists-Mem kind kinds).1 there in ground (arith, e)
  ],
)

kind_passes-Asked :
    (kinds : Option (List String)) (kind : String)
    → (kind_passes kinds kind ≡ true → Asked kinds kind)
      × (Asked kinds kind → kind_passes kinds kind ≡ true)
kind_passes-Asked none kind = (λ e asked h. cc, λ h. refl)
kind_passes-Asked (some kinds) kind = (
  λ e asked h. let same : kinds ≡ asked = cc in rw (← same) ((exists-Mem kind kinds).0 e),
  λ h. (exists-Mem kind kinds).1 (h kinds refl),
)

is_pending-eq : (s : JobStatus) → is_pending s ≡ true → s ≡ JobStatus.pending
is_pending-eq JobStatus.pending e = refl
is_pending-eq JobStatus.running e = cc
is_pending-eq JobStatus.succeeded e = cc
is_pending-eq JobStatus.failed e = cc
is_pending-eq JobStatus.cancelled e = cc

is_running-eq : (s : JobStatus) → is_running s ≡ true → s ≡ JobStatus.running
is_running-eq JobStatus.running e = refl
is_running-eq JobStatus.pending e = cc
is_running-eq JobStatus.succeeded e = cc
is_running-eq JobStatus.failed e = cc
is_running-eq JobStatus.cancelled e = cc

module _ {P : Type 0} (now : ℕ) (kinds : Option (List String)) (j : Job P) where
  pub eligible-Ready : eligible now kinds j ≡ true → Ready now kinds j
  unfolding eligible
  eligible-Ready e =
      let passes : kind_passes kinds j.kind ≡ true = ground (arith, e) in
      record {
        attempts_left = ground (arith, e);
        asked = (kind_passes-Asked kinds j.kind).0 passes;
        due = elim (Bool-cases (is_pending j.status)) [
          | inl p ↦
              let leaves : is_running j.status ≡ false = rw (is_pending-eq j.status p) refl in
              waiting (is_pending-eq j.status p) (ground (arith, e, p, leaves))
          | inr p ↦
              let running : is_running j.status ≡ true = ground (arith, e, p) in
              abandoned (is_running-eq j.status running)
                ((lease_over-LeaseOver now j.locked_until).0 (ground (arith, e, p)))
        ];
      }

  pub Ready-eligible : Ready now kinds j → eligible now kinds j ≡ true
  unfolding eligible
  Ready-eligible r =
      let passes = (kind_passes-Asked kinds j.kind).1 r.asked in
      let left = r.attempts_left in
      elim r.due [
        | waiting p time ↦ rw (p, passes) (ground (arith, left, time))
        | abandoned p over ↦
            rw (p, passes, (lease_over-LeaseOver now j.locked_until).1 over) (ground (arith, left))
      ]

  pub expired-Exhausted : exhausted_expired now kinds j ≡ true → Exhausted now kinds j
  expired-Exhausted e = record {
    running = is_running-eq j.status (ground (arith, e));
    over = (lease_over-LeaseOver now j.locked_until).0 (ground (arith, e));
    no_attempts = ground (arith, e);
    asked = (kind_passes-Asked kinds j.kind).0 (ground (arith, e));
  }

  pub Exhausted-expired : Exhausted now kinds j → exhausted_expired now kinds j ≡ true
  Exhausted-expired x =
      let passes = (kind_passes-Asked kinds j.kind).1 x.asked in
      let over = (lease_over-LeaseOver now j.locked_until).1 x.over in
      let none_left = x.no_attempts in rw (x.running, passes, over) (ground (arith, none_left))

  pub eligible-not_expired : eligible now kinds j ≡ true → exhausted_expired now kinds j ≡ false
  unfolding eligible
  eligible-not_expired e = ground (arith, e)

  -- A failed row is not claimed.
  pub expire-not_eligible : eligible now kinds (expire now j) ≡ false
  unfolding eligible
  expire-not_eligible = ground arith

module _ {P : Type 0} (now : ℕ) (kinds : Option (List String)) (a b : Job P) where
  same_turn : a.status ≡ b.status → claimed_before b a ≡ false → NoLater a b
  unfolding claimed_before
  same_turn same h =
      let first = rw same at h in
      elim (Bool-cases (ltb a.run_at b.run_at)) [
        | inl e ↦ earlier same (ground (arith, e))
        | inr e ↦ lower same (ground (arith, e, first)) (ground (arith, e, first))
      ]

  pending_first :
      a.status ≡ JobStatus.running → b.status ≡ JobStatus.pending → claimed_before b a ≢ false
  unfolding claimed_before
  pending_first p q h = let never = rw (p, q) at h in absurd (ground (arith, never))

  -- Of two ready rows, one that the ORDER BY does not put behind the other is taken no later.
  pub claimed_before-NoLater :
      Ready now kinds a → Ready now kinds b → claimed_before b a ≡ false → NoLater a b
  claimed_before-NoLater ra rb h = elim ra.due [
    | waiting p _ ↦ elim rb.due [
      | waiting q _ ↦ same_turn (p ∙ sym q) h
      | abandoned q _ ↦ waits p q
    ]
    | abandoned p _ ↦ elim rb.due [
      | waiting q _ ↦ absurd (pending_first p q h)
      | abandoned q _ ↦ same_turn (p ∙ sym q) h
    ]
  ]
