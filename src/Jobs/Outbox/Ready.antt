-- ===== src/Jobs/Outbox/Ready.antt =====
-- Which messages the outbox's `claim_due` may take and in which order, said apart from the conditions
-- and the ORDER BY of its statement, and that the two agree.
use gasu_schedule_bot.Base.{
  ℕ, ◌≤◌, ◌<◌, ◌≡◌, ◌≢◌, refl, sym, ◌∙◌, true, false, arith, Bool-cases, inl, inr, ltb,
}
use gasu_schedule_bot.Jobs.Outbox.{
  OutboxStatus, is_pending, is_sending, OutboxMessage, exhausted_expired, expire, message_is_due,
  sent_before,
}

module _ {P : Type 0} where
  -- A message that is not yet handed out, or whose last sender has lost its lease.
  pub data Open (m : OutboxMessage P) : Type 0 where
    waiting : m.status ≡ OutboxStatus.pending → Open m
    abandoned : m.status ≡ OutboxStatus.sending → Open m

  pub record Ready (now : ℕ) (m : OutboxMessage P) : Type 0 where
    pub attempts_left : m.attempts < m.max_attempts
    pub time : m.available_at ≤ now
    pub unsent : Open m

  -- A message whose last attempt has lost its lease.
  pub record Exhausted (now : ℕ) (m : OutboxMessage P) : Type 0 where
    pub sending : m.status ≡ OutboxStatus.sending
    pub over : m.available_at ≤ now
    pub no_attempts : m.max_attempts ≤ m.attempts

  -- `a` is sent no later than `b`: waiting messages come before abandoned ones, then the earlier
  -- time, then the lower id.
  pub data NoLater (a b : OutboxMessage P) : Type 0 where
    waits : a.status ≡ OutboxStatus.pending → b.status ≡ OutboxStatus.sending → NoLater a b
    earlier : a.status ≡ b.status → a.available_at < b.available_at → NoLater a b
    lower : a.status ≡ b.status → a.available_at ≡ b.available_at → a.id ≤ b.id → NoLater a b

is_pending-eq : (s : OutboxStatus) → is_pending s ≡ true → s ≡ OutboxStatus.pending
is_pending-eq OutboxStatus.pending e = refl
is_pending-eq OutboxStatus.sending e = cc
is_pending-eq OutboxStatus.sent e = cc
is_pending-eq OutboxStatus.failed e = cc
is_pending-eq OutboxStatus.cancelled e = cc

is_sending-eq : (s : OutboxStatus) → is_sending s ≡ true → s ≡ OutboxStatus.sending
is_sending-eq OutboxStatus.sending e = refl
is_sending-eq OutboxStatus.pending e = cc
is_sending-eq OutboxStatus.sent e = cc
is_sending-eq OutboxStatus.failed e = cc
is_sending-eq OutboxStatus.cancelled e = cc

module _ {P : Type 0} (now : ℕ) (m : OutboxMessage P) where
  pub due-Ready : message_is_due now m ≡ true → Ready now m
  unfolding message_is_due
  due-Ready e = record {
    attempts_left = ground (arith, e);
    time = ground (arith, e);
    unsent = elim (Bool-cases (is_pending m.status)) [
      | inl p ↦ waiting (is_pending-eq m.status p)
      | inr p ↦ abandoned (is_sending-eq m.status (ground (arith, e, p)))
    ];
  }

  pub Ready-due : Ready now m → message_is_due now m ≡ true
  unfolding message_is_due
  Ready-due r =
      let left = r.attempts_left in
      let time = r.time in
      elim r.unsent [
        | waiting p ↦ rw p (ground (arith, left, time))
        | abandoned p ↦ rw p (ground (arith, left, time))
      ]

  pub expired-Exhausted : exhausted_expired now m ≡ true → Exhausted now m
  expired-Exhausted e = record {
    sending = is_sending-eq m.status (ground (arith, e));
    over = ground (arith, e);
    no_attempts = ground (arith, e);
  }

  pub Exhausted-expired : Exhausted now m → exhausted_expired now m ≡ true
  Exhausted-expired x =
      let over = x.over in
      let none_left = x.no_attempts in rw x.sending (ground (arith, over, none_left))

  pub due-not_expired : message_is_due now m ≡ true → exhausted_expired now m ≡ false
  unfolding message_is_due
  due-not_expired e = ground (arith, e)

  -- A failed message is not claimed.
  pub expire-not_due : message_is_due now (expire now m) ≡ false
  unfolding message_is_due
  expire-not_due = ground arith

module _ {P : Type 0} (now : ℕ) (a b : OutboxMessage P) where
  same_turn : a.status ≡ b.status → sent_before b a ≡ false → NoLater a b
  unfolding sent_before
  same_turn same h =
      let first = rw same at h in
      elim (Bool-cases (ltb a.available_at b.available_at)) [
        | inl e ↦ earlier same (ground (arith, e))
        | inr e ↦ lower same (ground (arith, e, first)) (ground (arith, e, first))
      ]

  pending_first :
      a.status ≡ OutboxStatus.sending → b.status ≡ OutboxStatus.pending → sent_before b a ≢ false
  unfolding sent_before
  pending_first p q h = let never = rw (p, q) at h in absurd (ground (arith, never))

  -- Of two ready messages, one that the ORDER BY does not put behind the other is sent no later.
  pub sent_before-NoLater : Ready now a → Ready now b → sent_before b a ≡ false → NoLater a b
  sent_before-NoLater ra rb h = elim ra.unsent [
    | waiting p ↦ elim rb.unsent [ waiting q ↦ same_turn (p ∙ sym q) h | abandoned q ↦ waits p q ]
    | abandoned p ↦ elim rb.unsent [
      | waiting q ↦ absurd (pending_first p q h)
      | abandoned q ↦ same_turn (p ∙ sym q) h
    ]
  ]
