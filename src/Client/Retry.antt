-- ===== src/Client/Retry.antt =====
-- The request loop of client.py: repetition while the server answers 429, and the waits between.
pub mod Bounds
mod Tests
use tamga_python.Prelude.{
  ◌≡◌, refl, ℕ, zero, suc, ◌+◌, ◌-◌, ◌^◌, ◌≤◌, Bool, true, false, not, ◌&&◌, ◌||◌, Option, none,
  some, List, [], ◌∷◌, ◌++◌, ltb, leb, ◌==◌, any, if◌then◌else◌, map,
}
use tamga_python.Python.Int.{ℤ, pos, negsuc, ltb_ℤ, min_ℤ, pos_part}
use tamga_python.Python.Str.{Str, codes, str_eq, ends_with}
use tamga_python.Python.Exc.{Exc, Result, ok, err, value_error}
use tamga_python.Transport.{Response, parse_retry_after, Outcome, returned, raised, Raised, exc}

-- c.upper() of a letter of ASCII, which all methods are made of
upper_char : ℕ → ℕ
upper_char c = if leb b'a' c && leb c b'z' then c - 32 else c

unfoldable pub upper : Str → Str
unfolding upper_char
upper s = map upper_char s

abbrev pub retryable_post_suffixes : List Str
retryable_post_suffixes =
    codes "/actions/validate"
    ∷ codes "/actions/validate-key"
    ∷ codes "/actions/check-in"
    ∷ codes "/actions/check-out"
    ∷ codes "/actions/ping"
    ∷ codes "/actions/ping-heartbeat"
    ∷ codes "/actions/reset-heartbeat"
    ∷ []

unfoldable pub is_retryable : Str → Str → Bool
unfolding upper str_eq ends_with
is_retryable method path =
    str_eq (upper method) (codes "GET")
    || (str_eq (upper method) (codes "POST") && any (ends_with path) retryable_post_suffixes)

-- A wait in seconds: a whole number, or a whole number and a random fraction below one.
pub data Delay : Type 0 where
  exactly : ℤ → Delay
  jittered : ℕ → Delay

abbrev pub smaller : ℕ → ℕ → ℕ
smaller a b = if leb a b then a else b

unfoldable pub retry_delay : ℕ → Option ℤ → Delay
unfolding min_ℤ
retry_delay attempt (some retry_after) = exactly (min_ℤ retry_after (pos 60))
retry_delay attempt none = jittered (2 ^ smaller attempt 5)

-- time.sleep(delay) raises ValueError on a negative number.
abbrev pub can_sleep : Delay → Bool
can_sleep (exactly (pos n)) = true
can_sleep (exactly (negsuc n)) = false
can_sleep (jittered n) = true

-- How the loop ends, and what it did: the requests that it sent and the waits between them.
pub record Run : Type 0 where
  pub outcome : Outcome Response
  pub sent : ℕ
  pub waits : List Delay

-- One more request and wait before the rest of the run.
abbrev pub after_wait : Delay → Run → Run
after_wait delay run = record {
  outcome = run.outcome;
  sent = suc run.sent;
  waits = delay ∷ run.waits;
}

-- the run of a last request
abbrev pub last_request : Outcome Response → Run
last_request outcome = record { outcome = outcome; sent = 1; waits = [] }

-- `respond n` is what request number `n` returns or raises.
module _ (respond : ℕ → Result Response) (max_retries : ℤ) (retryable : Bool) where
  -- The test that ends the loop.
  unfoldable pub is_final : Response → ℕ → Bool
  is_final response attempt =
      not (response.status_code == 429) || not retryable || not (ltb_ℤ (pos attempt) max_retries)

  -- The loop from request number `attempt` on; `none` is lack of fuel.
  unfoldable pub request_loop : ℕ → ℕ → Option Run
  unfolding is_final retry_delay parse_retry_after
  request_loop zero attempt = none
  request_loop (suc fuel) attempt =
      let rest = request_loop fuel (suc attempt) in
      elim (respond attempt) [
        | err e ↦ some (last_request (raised (exc e)))
        | ok response ↦
            let delay = retry_delay attempt (parse_retry_after response) in
            if is_final response attempt
            then some (last_request (returned response))
            else if can_sleep delay
            then (elim rest [ none ↦ none | some run ↦ some (after_wait delay run) ])
            else some (last_request (raised (exc value_error)))
      ]

-- A request for each retry, and the first one.
abbrev pub request_fuel : ℤ → ℕ
request_fuel max_retries = suc (pos_part max_retries)

-- _request_with_retry
unfoldable pub request_with_retry : (ℕ → Result Response) → ℤ → Str → Str → Option Run
unfolding is_retryable request_loop
request_with_retry respond max_retries method path =
    request_loop respond max_retries (is_retryable method path) (request_fuel max_retries) 0
