-- ===== src/Base/Time.antt =====
-- Python's `datetime`. An instant is a number of microseconds since the epoch; a value without a
-- time zone carries no instant that the program may use.
use Prim.Native.Nat.{ℕ}

pub data DateTime : Type 0 where
  aware : ℕ → DateTime
  naive : ℕ → DateTime

abbrev pub microseconds : ℕ
microseconds = 1

abbrev pub seconds : ℕ
seconds = 1000000

abbrev pub minutes : ℕ
minutes = 60000000

abbrev pub hours : ℕ
hours = 3600000000
