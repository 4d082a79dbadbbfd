-- ===== src/Client/Retry/Bounds.antt =====
-- What the request loop guarantees: it ends, within its budget, and waits no longer than it may.
use tamga_python.Prelude.{
  ◌≡◌, refl, ap, ℕ, zero, suc, ◌+◌, ◌^◌, ◌≤◌, ◌<◌, ◌⊎◌, inl, inr, Bool, true, false, Option, none,
  some, arith, ◌==◌, ==_iff, All, length, Bool-cases,
}
use tamga_python.Python.Int.{ℤ, pos, negsuc, min_ℤ, pos_part}
use tamga_python.Python.Str.{Str}
use tamga_python.Python.Exc.{Result, ok, err, value_error, Result-cases}
use tamga_python.Transport.{Response, parse_retry_after, Outcome, returned, raised, exc}
use tamga_python.Client.Retry.{
  Delay, exactly, jittered, smaller, retry_delay, can_sleep, Run, last_request, after_wait,
  is_retryable, is_final, request_loop, request_fuel, request_with_retry,
}

-- A wait is at most a minute, with its random fraction.
abbrev pub IsShort : Delay → Type 0
IsShort (exactly n) = pos_part n ≤ 60
IsShort (jittered n) = n < 60

-- The powers of two up to the fifth.
power_small : (n : ℕ) → n ≤ 5 → 2 ^ n < 60
power_small zero h = omega arith
power_small (suc zero) h = omega arith
power_small (suc (suc zero)) h = omega arith
power_small (suc (suc (suc zero))) h = omega arith
power_small (suc (suc (suc (suc zero)))) h = omega arith
power_small (suc (suc (suc (suc (suc zero))))) h = omega arith
power_small (suc (suc (suc (suc (suc (suc n)))))) h = absurd (omega arith)

retry_delay-IsShort :
    (attempt : ℕ) (retry_after : Option ℤ) → IsShort (retry_delay attempt retry_after)
unfolding retry_delay min_ℤ
retry_delay-IsShort attempt (some (pos n)) = ground arith
retry_delay-IsShort attempt (some (negsuc n)) = ground arith
retry_delay-IsShort attempt none = power_small (smaller attempt 5) (ground arith)

module _ (respond : ℕ → Result Response) (max_retries : ℤ) (retryable : Bool) where
  -- The answer to the last request is returned, or it asks for a negative wait before the next, or
  -- the last request raised.
  abbrev pub Ends : ℕ → Result Response → Outcome Response → Type 0
  Ends last (ok response) outcome =
      ((outcome ≡ returned response)
        × (is_final respond max_retries retryable response last ≡ true))
      ⊎ ((outcome ≡ raised (exc value_error))
          × (is_final respond max_retries retryable response last ≡ false)
          × (can_sleep (retry_delay last (parse_retry_after response)) ≡ false))
  Ends last (err e) outcome = outcome ≡ raised (exc e)

  -- A run from request number `attempt` to request number `last`: within the budget, with a short
  -- wait between two requests, each after an answer of 429.
  pub record IsRun (attempt : ℕ) (run : Run) : Type 0 where
    pub last : ℕ
    pub counted : suc last ≡ attempt + run.sent
    pub in_budget : last ≤ pos_part max_retries
    pub one_wait_less : suc (length run.waits) ≡ run.sent
    pub short : All IsShort run.waits
    pub once : retryable ≡ false → run.sent ≡ 1
    pub throttled :
        (n : ℕ)
        → attempt ≤ n
        → n < last
        → (response : Response) × (respond n ≡ ok response) × (response.status_code ≡ 429)
    pub ends : Ends last (respond last) run.outcome

  pub not_final :
      (response : Response) (attempt : ℕ)
      → is_final respond max_retries retryable response attempt ≡ false
      → (response.status_code ≡ 429) × (retryable ≡ true) × (suc attempt ≤ pos_part max_retries)
  unfolding is_final
  not_final response attempt h = (ground arith, ground arith, ground arith)

  single :
      (attempt : ℕ) (outcome : Outcome Response)
      → Ends attempt (respond attempt) outcome
      → attempt ≤ pos_part max_retries
      → IsRun attempt (last_request outcome)
  single attempt outcome e h = record {
    last = attempt;
    counted = omega arith;
    in_budget = h;
    one_wait_less = refl;
    short = tt;
    once = λ r. refl;
    throttled = λ n lo hi. absurd (omega arith);
    ends = e;
  }

  after_wait-IsRun :
      (response : Response) (attempt : ℕ) (delay : Delay) (run : Run)
      → respond attempt ≡ ok response
      → IsShort delay
      → is_final respond max_retries retryable response attempt ≡ false
      → IsRun (suc attempt) run
      → IsRun attempt (after_wait delay run)
  after_wait-IsRun response attempt delay run answered short again r = record {
    last = r.last;
    counted = omega (arith, r.counted);
    in_budget = r.in_budget;
    one_wait_less = ap suc r.one_wait_less;
    short = (short, r.short);
    once = λ no. let able = (not_final response attempt again).1 in absurd (ground arith);
    throttled = λ n lo hi. elim (Bool-cases (n == attempt)) [
      | inl e ↦
          (response, rw ((==_iff n attempt).0 e) answered, (not_final response attempt again).0)
      | inr e ↦ r.throttled n (ground arith) hi
    ];
    ends = r.ends;
  }

  request_loop-IsRun :
      (fuel attempt : ℕ)
      → attempt ≤ pos_part max_retries
      → suc (pos_part max_retries) ≤ attempt + fuel
      → (run : Run) × (request_loop respond max_retries retryable fuel attempt ≡ some run)
        × IsRun attempt run
  unfolding request_loop
  request_loop-IsRun zero attempt lo hi = absurd (omega arith)
  request_loop-IsRun (suc fuel) attempt lo hi = elim (Result-cases (respond attempt)) [
    | inr (x, a) ↦ (_, rw (request_loop, a) refl, single attempt (raised (exc x)) (rw a refl) lo)
    | inl (response, a) ↦
        elim (Bool-cases (is_final respond max_retries retryable response attempt)) [
          | inl e ↦ (
            _,
            rw (request_loop, a, e) refl,
            single attempt (returned response) (rw a (inl (refl, e))) lo,
          )
          | inr e ↦
              elim (Bool-cases (can_sleep (retry_delay attempt (parse_retry_after response)))) [
                | inr s ↦ (
                  _,
                  rw (request_loop, a, e, s) refl,
                  single attempt (raised (exc value_error)) (rw a (inr (refl, e, s))) lo,
                )
                | inl s ↦
                    let (again, able, next) = not_final response attempt e in
                    let (run, computed, r) =
                      request_loop-IsRun fuel (suc attempt) next (omega arith) in
                    let delay = retry_delay attempt (parse_retry_after response) in
                    (
                      after_wait delay run,
                      rw (request_loop, a, e, s, computed) refl,
                      after_wait-IsRun response attempt delay run a (retry_delay-IsShort attempt _)
                          e r,
                    )
              ]
        ]
  ]

-- The loop ends within its fuel, whatever the requests return or raise. It sends at most one request more
-- than the budget of retries, and one request only where the call may not be repeated; between two
-- requests it waits at most a minute, and only after an answer of 429. It returns the answer to its
-- last request, which is no 429 unless the call may not be repeated or the budget is spent, or
-- it raises what its last request raised, or ValueError over an answer that would have it wait a
-- negative time before the next.
pub request_with_retry-IsRun :
    (respond : ℕ → Result Response) (max_retries : ℤ) (method path : Str)
    → (run : Run) × (request_with_retry respond max_retries method path ≡ some run)
      × IsRun respond max_retries (is_retryable method path) 0 run
unfolding request_with_retry
request_with_retry-IsRun respond max_retries method path =
    request_loop-IsRun respond max_retries (is_retryable method path) (request_fuel max_retries) 0
      (omega arith) (omega arith)
