-- ===== src/Schedule/Client.antt =====
-- `SpbGasuClient._request_group` of src/szs_hub/schedule/spbgasu.py: the requests, their retries and
-- the one repetition for a token. The network is a parameter: what the n-th request, sent with a
-- session id or none, is answered.
pub mod Bounded
use gasu_schedule_bot.Base.{
  ℕ, zero, suc, ◌+◌, ◌-◌, ◌*◌, ◌^◌, Bool, true, false, ◌&&◌, ◌||◌, not, min, max, Option, none,
  some, List, [], ◌∷◌, ◌++◌, ltb, ◌==◌, if◌then◌else◌, exists, Text, text_eq, seconds, Result, ok,
  raise, raise_if, ◌>>=◌,
}
use gasu_schedule_bot.Schedule.Lesson.{Unicode, nonempty}
use gasu_schedule_bot.Schedule.Html.{Items}
use gasu_schedule_bot.Schedule.Page.{
  WeeklyLesson, WeeklySchedule, SourceError, Formats, strip, parse_schedule_html,
}

-- The body of an answer: one on which `response.json()` raises an error that is no
-- `JSONDecodeError`, such as bytes that are no text; no JSON; a success with its stripped HTML or
-- without data; or another status with the token that `_bitrix_csrf_token` finds in it.
pub data Payload : Type 0 where
  undecodable : Payload
  not_json : Payload
  success : Option Text → Payload
  no_data : Payload
  refused : Option Text → Payload

pub record Response : Type 0 where
  pub status_code : ℕ
  pub is_error : Bool
  pub size : ℕ
  -- The header Retry-After as a number of microseconds, none where it is missing or no number; a
  -- negative number is read as 0.
  pub retry_after : Option ℕ
  pub payload : Payload

-- How `post` ends: with a timeout or a network error, with another error of the HTTP client, which
-- `_request_group` does not catch, or with a response.
pub data Reply : Type 0 where
  lost : Reply
  broken : Reply
  answered : Response → Reply

abbrev pub Network : Type 0
Network = ℕ → Option Text → Reply

-- What `_request_group` raises: an error of the source, or one that it lets pass.
pub data RequestError : Type 0 where
  of_source : SourceError → RequestError
  transport_error : RequestError
  undecodable_body : RequestError

abbrev pub retryable : ℕ → Bool
retryable code = exists (λ c. c == code) (408 ∷ 429 ∷ 500 ∷ 502 ∷ 503 ∷ 504 ∷ [])

-- `0.5 * (2**attempt)` seconds
abbrev pub backoff : ℕ → ℕ
backoff attempt = 500000 * 2 ^ attempt

-- `_retry_delay`
unfoldable pub retry_delay_of : Response → ℕ → ℕ
retry_delay_of response attempt = of_header response.retry_after
  where
    of_header : Option ℕ → ℕ
    of_header none = backoff attempt
    of_header (some after) = min (30 * seconds) after

-- How one attempt ends: with the HTML or an error, or to be repeated after a delay.
pub data Round : Type 0 where
  finished : Result RequestError Text → Round
  again : ℕ → Round

-- The session id of the form, and the requests sent so far.
pub record Exchange : Type 0 where
  pub session_id : Option Text
  pub requests : ℕ
  pub sleeps : List ℕ

module _ (network : Network) (max_response_bytes : ℕ) where
  abbrev pub html_of : Option Text → Round
  html_of none = finished (raise (of_source SourceError.group_not_found))
  html_of (some html) = finished (ok html)

  abbrev pub component_failed : Round
  component_failed = finished (raise (of_source (SourceError.protocol "component failed")))

  -- The answer's JSON; `repeat` is the second request with a token, where there may be one.
  abbrev pub read_payload : Exchange → (Option Text → Round × Exchange) → Payload → Round × Exchange
  read_payload e repeat undecodable = (finished (raise undecodable_body), e)
  read_payload e repeat not_json =
      (finished (raise (of_source (SourceError.protocol "non-JSON data"))), e)
  read_payload e repeat (success html) = (html_of (nonempty html), e)
  read_payload e repeat no_data =
      (finished (raise (of_source (SourceError.protocol "no component data"))), e)
  read_payload e repeat (refused csrf) = repeat (nonempty csrf)

  abbrev pub read_response :
      ℕ → Exchange → (Option Text → Round × Exchange) → Reply → Round × Exchange
  read_response attempt e repeat lost = (again (backoff attempt), e)
  read_response attempt e repeat broken = (finished (raise transport_error), e)
  read_response attempt e repeat (answered response) =
      let read = read_payload e repeat response.payload in
      if retryable response.status_code
      then (again (retry_delay_of response attempt), e)
      else if response.is_error
      then (finished (raise (of_source (SourceError.protocol "rejected"))), e)
      else if ltb max_response_bytes response.size
      then (finished (raise (of_source (SourceError.protocol "exceeds the size limit"))), e)
      else read

  abbrev pub sent : Exchange → Exchange
  sent e = record e { requests = suc e.requests }

  abbrev pub no_repeat : Exchange → Option Text → Round × Exchange
  no_repeat e csrf = (component_failed, e)

  -- `csrf_attempt` 1
  unfoldable pub second_request : ℕ → Exchange → Round × Exchange
  second_request attempt e =
      read_response attempt (sent e) (no_repeat (sent e)) (network e.requests e.session_id)

  abbrev pub with_token : ℕ → Exchange → Option Text → Round × Exchange
  with_token attempt e none = (component_failed, e)
  with_token attempt e (some csrf) = second_request attempt (record e { session_id = some csrf })

  -- `csrf_attempt` 0
  unfoldable pub first_request : ℕ → Exchange → Round × Exchange
  first_request attempt e =
      read_response attempt (sent e) (with_token attempt (sent e)) (network e.requests e.session_id)

  abbrev pub slept : ℕ → Exchange → Exchange
  slept delay e = record e { sleeps = e.sleeps ++ delay ∷ [] }

  -- `left` attempts follow the one that has ended.
  abbrev pub next_attempt :
      ℕ
      → (Exchange → Option (Result RequestError Text) × Exchange)
      → Round × Exchange
      → Option (Result RequestError Text) × Exchange
  next_attempt left rest (finished answer, e) = (some answer, e)
  next_attempt zero rest (again delay, e) = (some (raise (of_source SourceError.unavailable)), e)
  next_attempt (suc left) rest (again delay, e) = rest (slept delay e)

  -- The loop over `range(max_retries + 1)`; none is the `AssertionError` after it.
  unfoldable pub attempts : ℕ → ℕ → Exchange → Option (Result RequestError Text) × Exchange
  attempts zero attempt e = (none, e)
  attempts (suc left) attempt e =
      next_attempt left (attempts left (suc attempt)) (first_request attempt e)

  -- `_request_group`
  unfoldable pub request_group : ℕ → Option (Result RequestError Text) × Exchange
  request_group max_retries =
      attempts (suc max_retries) 0 (record { session_id = none; requests = 0; sleeps = [] })
