-- ===== src/Jobs/Policy.antt =====
-- The guards and the retry policy that both queues share: the private functions at the end of
-- src/szs_hub/jobs/queue.py. A duration is a number of microseconds; the seconds that the source
-- computes as floats are exact at these magnitudes.
pub mod Backoff
use Prim.Native.Char.{Char, code}
use Prim.Native.String.{count}
use gasu_schedule_bot.Base.{
  ℕ, zero, suc, ◌+◌, ◌-◌, ◌*◌, ◌^◌, ◌≤◌, ◌<◌, min, String, ◌≡◌, Bool, true, false, ◌||◌, not, arith,
  ltb, leb, ◌==◌, if◌then◌else◌, Result, ok, raise, ◌>>=◌, ◌>>◌, raise_if, DateTime, aware, naive,
  seconds, hours, tests,
}

pub data QueueError : Type 0 where
  naive_timestamp bad_worker_id bad_kind bad_key bad_max_attempts bad_retry_policy : QueueError
  bad_lease idempotency_conflict lost_row multiple_rows : QueueError

abbrev pub Outcome : Type 0 → Type 0
Outcome A = Result QueueError A

abbrev pub min_lease : ℕ
min_lease = 1 * seconds

abbrev pub max_lease : ℕ
max_lease = 1 * hours

abbrev pub max_attempts_limit : ℕ
max_attempts_limit = 100

abbrev pub max_retry_delay : ℕ
max_retry_delay = 24 * hours

-- `_aware`, and what the column type `UTCDateTime` does with a value that it is given.
abbrev pub aware_instant : DateTime → Outcome ℕ
aware_instant (aware t) = ok t
aware_instant (naive t) = raise naive_timestamp

unfoldable pub validate_worker_id : String → Outcome (Unit {0})
validate_worker_id worker_id =
    raise_if (count worker_id == 0 || ltb 128 (count worker_id)) bad_worker_id

unfoldable pub validate_enqueue : String → String → ℕ → Outcome (Unit {0})
validate_enqueue kind idempotency_key max_attempts = do
  raise_if (count kind == 0 || ltb 100 (count kind)) bad_kind
  raise_if (count idempotency_key == 0 || ltb 255 (count idempotency_key)) bad_key
  raise_if (ltb max_attempts 1 || ltb max_attempts_limit max_attempts) bad_max_attempts

unfoldable pub validate_retry_policy : ℕ → ℕ → Outcome (Unit {0})
validate_retry_policy base cap =
    raise_if (leb base 0 || (ltb cap base || ltb max_retry_delay cap)) bad_retry_policy

unfoldable pub validate_lease : ℕ → Outcome (Unit {0})
validate_lease lease = raise_if (ltb lease min_lease || ltb max_lease lease) bad_lease

-- The exponent stops at 30, so a long-lived row cannot overflow the delay.
unfoldable pub retry_delay : ℕ → ℕ → ℕ → ℕ
retry_delay attempt base cap = min (base * 2 ^ min (attempt - 1) 30) cap

abbrev take : ℕ → String → String
take zero s = String.[]
take (suc n) String.[] = String.[]
take (suc n) (String.◌∷◌ c s) = String.◌∷◌ c (take n s)

-- `safe or "HandlerError"`
abbrev or_handler_error : String → String
or_handler_error String.[] = "HandlerError"
or_handler_error (String.◌∷◌ c s) = String.◌∷◌ c s

module _ (is_alnum : Char → Bool) where
  abbrev is_safe : Char → Bool
  is_safe c = is_alnum c || code c == b'_'

  unfoldable pub safe_characters : String → String
  safe_characters String.[] = String.[]
  safe_characters (String.◌∷◌ c s) =
      let rest = safe_characters s in if is_safe c then String.◌∷◌ c rest else rest

  -- The stored code is the name of the exception's type: its letters, digits and underscores,
  -- at most a hundred of them. `is_alnum` is the character table of `str.isalnum`.
  unfoldable pub safe_error_code : String → String
  unfolding safe_characters
  safe_error_code name = take 100 (or_handler_error (safe_characters name))
