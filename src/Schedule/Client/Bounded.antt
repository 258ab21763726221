-- ===== src/Schedule/Client/Bounded.antt =====
-- The requests of one fetch end, and are few.
use gasu_schedule_bot.Base.{
  ℕ, zero, suc, ◌+◌, ◌*◌, ◌≤◌, ◌≡◌, ◌≢◌, refl, ap, subst, Bool-cases, inl, inr, Option, none, some,
  [], ◌∷◌, length, length-append, arith, ltb, Text, Result,
}
use gasu_schedule_bot.Schedule.Client.{
  Payload, undecodable, not_json, success, no_data, refused, Reply, lost, broken, answered, Network,
  RequestError, retryable, Round, finished, again, Exchange, read_payload, read_response, sent,
  no_repeat, second_request, with_token, first_request, slept, next_attempt, attempts,
  request_group,
}

module _ (network : Network) (limit : ℕ) where
  -- At most `n` requests more than before, and no sleep.
  abbrev Within : ℕ → Exchange → Round × Exchange → Type 0
  Within n e round = (round.1.requests ≤ n + e.requests) × (round.1.sleeps ≡ e.sleeps)

  payload-Within :
      (n : ℕ) (e e' : Exchange) (repeat : Option Text → Round × Exchange) (payload : Payload)
      → e'.requests ≤ n + e.requests
      → e'.sleeps ≡ e.sleeps
      → ((csrf : Option Text) → Within n e (repeat csrf))
      → Within n e (read_payload network limit e' repeat payload)
  payload-Within n e e' repeat undecodable few same h = (few, same)
  payload-Within n e e' repeat not_json few same h = (few, same)
  payload-Within n e e' repeat (success html) few same h = (few, same)
  payload-Within n e e' repeat no_data few same h = (few, same)
  payload-Within n e e' repeat (refused csrf) few same h = h _

  response-Within :
      (attempt n : ℕ) (e e' : Exchange) (repeat : Option Text → Round × Exchange) (reply : Reply)
      → e'.requests ≤ n + e.requests
      → e'.sleeps ≡ e.sleeps
      → ((csrf : Option Text) → Within n e (repeat csrf))
      → Within n e (read_response network limit attempt e' repeat reply)
  response-Within attempt n e e' repeat lost few same h = (few, same)
  response-Within attempt n e e' repeat broken few same h = (few, same)
  response-Within attempt n e e' repeat (answered r) few same h =
      elim (Bool-cases (retryable r.status_code)) [
        | inl b ↦ rw b (few, same)
        | inr b ↦ rw b (elim (Bool-cases r.is_error) [
          | inl c ↦ rw c (few, same)
          | inr c ↦ rw c (elim (Bool-cases (ltb limit r.size)) [
            | inl d ↦ rw d (few, same)
            | inr d ↦ rw d (payload-Within n e e' repeat r.payload few same h)
          ])
        ])
      ]

  second-Within : (attempt : ℕ) (e : Exchange) → Within 1 e (second_request network limit attempt e)
  unfolding second_request
  second-Within attempt e =
      response-Within attempt 1 e (sent network limit e)
        (no_repeat network limit (sent network limit e)) (network e.requests e.session_id)
        (omega arith) refl (λ _. (omega arith, refl))

  token-Within :
      (attempt : ℕ) (e : Exchange) (csrf : Option Text)
      → Within 2 e (with_token network limit attempt (sent network limit e) csrf)
  token-Within attempt e none = (omega arith, refl)
  token-Within attempt e (some csrf) =
      let (few, same) =
        second-Within attempt (record (sent network limit e) { session_id = some csrf }) in
      (omega (arith, few), same)

  first-Within : (attempt : ℕ) (e : Exchange) → Within 2 e (first_request network limit attempt e)
  unfolding first_request
  first-Within attempt e =
      response-Within attempt 2 e (sent network limit e)
        (with_token network limit attempt (sent network limit e)) (network e.requests e.session_id)
        (omega arith) refl (token-Within attempt e)

  -- The loop gives an answer, with two requests an attempt and a sleep between two attempts.
  abbrev Ends : ℕ → Exchange → Option (Result RequestError Text) × Exchange → Type 0
  Ends left e ran =
      (ran.0 ≢ none)
      × (ran.1.requests ≤ 2 * suc left + e.requests)
      × (length ran.1.sleeps ≤ left + length e.sleeps)

  next-Ends :
      (left : ℕ) (e : Exchange) (rest : Exchange → Option (Result RequestError Text) × Exchange)
      (round : Round × Exchange)
      → Within 2 e round
      → ((before : ℕ) → left ≡ suc before → (e' : Exchange) → Ends before e' (rest e'))
      → Ends left e (next_attempt network limit left rest round)
  next-Ends left e rest (finished answer, e') (few, same) later =
      ((λ none_given. cc), omega (arith, few), (let count = ap length same in omega (arith, count)))
  next-Ends zero e rest (again delay, e') (few, same) later =
      ((λ none_given. cc), omega (arith, few), (let count = ap length same in omega (arith, count)))
  next-Ends (suc left) e rest (again delay, e') (few, same) later =
      let (given, requests, sleeps) = later left refl (slept network limit delay e') in
      let longer = length-append e'.sleeps (delay ∷ []) in
      let count = ap length same in
      (given, omega (arith, requests, few), omega (arith, sleeps, longer, count))

  attempts-Ends :
      (left attempt : ℕ) (e : Exchange) → Ends left e (attempts network limit (suc left) attempt e)
  unfolding attempts
  attempts-Ends zero attempt e =
      next-Ends zero e (attempts network limit zero (suc attempt))
        (first_request network limit attempt e) (first-Within attempt e)
        (λ before e' _. absurd (omega (arith, e')))
  attempts-Ends (suc left) attempt e =
      next-Ends (suc left) e (attempts network limit (suc left) (suc attempt))
        (first_request network limit attempt e) (first-Within attempt e)
        (λ before same e'.
          let less : left ≡ before = omega (arith, same) in
          subst (λ b. Ends b e' (attempts network limit (suc left) (suc attempt) e')) less
            (attempts-Ends left (suc attempt) e'))

  -- Whatever the requests are answered or fail with, a group's request ends, with its HTML, an
  -- error of the source or an error that passes through it, and never at the assertion after the
  -- loop: after at most two requests for each of the attempts, with at most one sleep for each
  -- retry.
  pub request_group_ends :
      (max_retries : ℕ)
      → ((request_group network limit max_retries).0 ≢ none)
        × ((request_group network limit max_retries).1.requests ≤ 2 * (1 + max_retries))
        × (length (request_group network limit max_retries).1.sleeps ≤ max_retries)
  unfolding request_group
  request_group_ends max_retries =
      let (given, requests, sleeps) =
        attempts-Ends max_retries 0 (record { session_id = none; requests = 0; sleeps = [] }) in
      (given, omega (arith, requests), omega (arith, sleeps))
