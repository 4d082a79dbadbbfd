-- ===== src/Client/Session/Sending.antt =====
-- How many requests a call sends, and which.
use tamga_python.Prelude.{
  ◌≡◌, refl, ◌∙◌, ℕ, suc, ◌≤◌, ◌⊎◌, inl, inr, Bool, true, false, Option, none, some, ◌∷◌, leb, ◌++◌,
  arith, replicate, if◌then◌else◌,
}
use tamga_python.Python.Int.{ℤ, pos, negsuc, min_ℤ, pos_part}
use tamga_python.Python.Str.{Str}
use tamga_python.Python.Json.{Json, Fields}
use tamga_python.Python.Exc.{Exc, Result, ok, err, value_error}
use tamga_python.Transport.{
  AuthTransport, Dict, Response, exc, Outcome, returned, raised, parse_response, parse_retry_after,
}
use tamga_python.Client.Retry.{can_sleep, retry_delay, request_with_retry, is_retryable, is_final}
use tamga_python.Client.Retry
use tamga_python.Client.Retry.Bounds.{IsRun, Ends, not_final, request_with_retry-IsRun}
use tamga_python.Client.Request.{HttpRequest, Log, Context, assemble, raw_response_meta}
use tamga_python.Client.Request.Headers.{Carries, assemble-Carries}
use tamga_python.Client.Session.{
  Session, return, proceed, lift, of_outcome, ◌>>=◌, after_loop, send, send_raw_response,
  send_request_raw, send_request, send_request_with_meta, client_answer, content_of,
}

module _ (ctx : Context) where
  -- One request was sent `count` times: at least once, at most once more than the budget of retries,
  -- and once where it may not be repeated.
  pub record Repeats (request : HttpRequest) (log log' : Log) : Type 0 where
    pub count : ℕ
    pub some_sent : 1 ≤ count
    pub in_budget : count ≤ suc (pos_part ctx.config.max_retries)
    pub once : is_retryable request.method request.target ≡ false → count ≡ 1
    pub extends : log' ≡ replicate count request ++ log

  -- An answer that would have a request repeated after a negative wait: a 429 to a request that may
  -- be repeated, with budget left and a negative Retry-After.
  pub record NegativeWait (request : HttpRequest) (before : ℕ) (response : Response) : Type 0 where
    pub throttled : response.status_code ≡ 429
    pub repeatable : is_retryable request.method request.target ≡ true
    pub budget_left : suc before ≤ pos_part ctx.config.max_retries
    pub asked : (n : ℕ) × (parse_retry_after response ≡ some (negsuc n))

  -- The last request, after `before` equal ones, returned or raised; a response is what comes back,
  -- save for a negative wait.
  abbrev pub Ended : HttpRequest → ℕ → Result Response → Outcome Response → Type 0
  Ended request before (ok response) outcome =
      (outcome ≡ returned response)
      ⊎ ((outcome ≡ raised (exc value_error)) × NegativeWait request before response)
  Ended request before (err e) outcome = outcome ≡ raised (exc e)

  abbrev pub Answered : HttpRequest → Log → Log → Outcome Response → Type 0
  Answered request log log' outcome =
      (before : ℕ) × (log' ≡ request ∷ (replicate before request ++ log))
      × Ended request before (ctx.http (replicate before request ++ log) request) outcome

  negative_wait :
      (attempt : ℕ) (retry_after : Option ℤ)
      → can_sleep (retry_delay attempt retry_after) ≡ false
      → (n : ℕ) × (retry_after ≡ some (negsuc n))
  unfolding retry_delay min_ℤ
  negative_wait attempt none h = absurd (cc h)
  negative_wait attempt (some (pos n)) h = absurd (ground arith)
  negative_wait attempt (some (negsuc n)) h = (n, refl)

  abbrev respond : HttpRequest → Log → ℕ → Result Response
  respond request log n = ctx.http (replicate n request ++ log) request

  ended :
      (request : HttpRequest) (log : Log) (last : ℕ) (r : Result Response)
      (outcome : Outcome Response)
      → Ends
          (respond request log)
          ctx.config.max_retries
          (is_retryable request.method request.target)
          last
          r
          outcome
      → Ended request last r outcome
  ended request log last (ok response) outcome (inl (e, final)) = inl e
  ended request log last (ok response) outcome (inr (e, again, wait)) =
      let (throttled, able, next) =
        not_final (respond request log) ctx.config.max_retries
          (is_retryable request.method request.target) response last again in
      inr (
        e,
        record {
          throttled = throttled;
          repeatable = able;
          budget_left = next;
          asked = negative_wait last (parse_retry_after response) wait;
        },
      )
  ended request log last (err e) outcome h = h

  ends-Answered :
      (request : HttpRequest) (log : Log) (run : Retry.Run)
      → IsRun
          (λ n. ctx.http (replicate n request ++ log) request)
          ctx.config.max_retries
          (is_retryable request.method request.target)
          0
          run
      → Answered request log (replicate run.sent request ++ log) run.outcome
  ends-Answered request log run r =
      let sent : run.sent ≡ suc r.last = omega (arith, r.counted) in
      let last = ended request log r.last (respond request log r.last) run.outcome r.ends in
      rw sent (r.last, refl, last)

  pub send-Sent :
      (request : HttpRequest) (log : Log)
      → Repeats request log (send ctx request log).1
        × Answered request log (send ctx request log).1 (send ctx request log).0
  unfolding send after_loop
  send-Sent request log =
      let (run, computed, r) =
        request_with_retry-IsRun (λ n. ctx.http (replicate n request ++ log) request)
          ctx.config.max_retries request.method request.target in
      rw computed (
        record {
          count = run.sent;
          some_sent = omega (arith, r.counted);
          in_budget = omega (arith, r.counted, r.in_budget);
          once = r.once;
          extends = refl;
        },
        ends-Answered request log run r,
      )

  -- No request can be made of the arguments.
  abbrev pub Unassembled : Str → Str → Option Json → Dict → Option AuthTransport → Bool → Type 0
  Unassembled method path body params auth_override is_quick_validate =
      (x : Exc) × (assemble ctx method path body params auth_override is_quick_validate ≡ err x)

  -- What a computation issues that sends one request: nothing where none can be made, or the
  -- request.
  abbrev pub Issues :
      Str → Str → Option Json → Dict → Option AuthTransport → Bool → Log → Log → Type 0
  Issues method path body params auth_override is_quick_validate log log' =
      (Unassembled method path body params auth_override is_quick_validate × (log' ≡ log))
      ⊎ ((request : HttpRequest) × Carries ctx method path body params auth_override
            is_quick_validate request
          × Repeats request log log')

  module _ (method path : Str) (body : Option Json) (params : Dict)
      (auth_override : Option AuthTransport) (is_quick_validate : Bool) where
    assembled :
        (r : Result HttpRequest) (log : Log)
        → assemble ctx method path body params auth_override is_quick_validate ≡ r
        → Issues method path body params auth_override is_quick_validate log
            (proceed (lift r log) (send ctx)).1
    assembled (ok request) log e = inr (
      request,
      assemble-Carries ctx method path body params auth_override is_quick_validate request e,
      (send-Sent request log).0,
    )
    assembled (err x) log e = inl ((x, e), refl)

    pub send_raw_response-Issues :
        (log : Log)
        → Issues method path body params auth_override is_quick_validate log
            (send_raw_response ctx method path body params auth_override is_quick_validate log).1
    unfolding send_raw_response
    send_raw_response-Issues log =
        assembled (assemble ctx method path body params auth_override is_quick_validate) log refl

  -- A step that sends nothing leaves the log as it was.
  pub proceed-quiet {ℓ κ} :
      {A : Type ℓ} {B : Type κ} (o : Outcome A × Log) (f : A → Session B)
      → ((a : A) (log : Log) → (f a log).1 ≡ log)
      → (proceed o f).1 ≡ o.1
  proceed-quiet (returned a, log) f h = h a log
  proceed-quiet (raised r, log) f h = refl

  pub lift-quiet {ℓ} : {A : Type ℓ} (r : Result A) (log : Log) → (lift r log).1 ≡ log
  lift-quiet (ok a) log = refl
  lift-quiet (err e) log = refl

  -- A computation that sends nothing.
  abbrev pub Quiet {ℓ} : {A : Type ℓ} → Session A → Type 0
  Quiet m = (log : Log) → (m log).1 ≡ log

  pub bind-Quiet {ℓ κ} :
      {A : Type ℓ} {B : Type κ} (m : Session A) (f : A → Session B)
      → Quiet m
      → ((a : A) → Quiet (f a))
      → Quiet (m >>= f)
  bind-Quiet m f h k log = proceed-quiet (m log) f k ∙ h log

  pub if-Quiet {ℓ} :
      {A : Type ℓ} (test : Bool) (m k : Session A)
      → Quiet m
      → Quiet k
      → Quiet (if test then m else k)
  if-Quiet true m k h i = h
  if-Quiet false m k h i = i

  pub content_of-Quiet : (response : Response) → Quiet (content_of ctx response)
  unfolding content_of
  content_of-Quiet response = if-Quiet (leb 400 response.status_code) _ _ (λ l. refl) (λ l. refl)

  abbrev read_answer : Response → Session (Json × Fields)
  read_answer response = of_outcome (parse_response ctx.json_loads response false) >>= λ parsed.
      lift (raw_response_meta ctx response) >>= λ meta. return (parsed.data_member, meta)

  read_answer-Quiet : (response : Response) → Quiet (read_answer response)
  read_answer-Quiet response =
      bind-Quiet (of_outcome (parse_response ctx.json_loads response false)) _ (λ l. refl)
        (λ parsed.
          bind-Quiet (lift (raw_response_meta ctx response)) _
            (lift-quiet (raw_response_meta ctx response)) (λ meta l. refl))

  pub client_answer-Repeats :
      (request : HttpRequest) (log : Log) → Repeats request log (client_answer ctx request log).1
  unfolding client_answer
  client_answer-Repeats request log =
      rw (proceed-quiet (send ctx request log) read_answer read_answer-Quiet)
        (send-Sent request log).0

  pub send_request_with_meta-Issues :
      (method path : Str) (body : Option Json) (params : Dict) (log : Log)
      → Issues method path body params none false log
          (send_request_with_meta ctx method path body params log).1
  unfolding send_request_with_meta
  send_request_with_meta-Issues method path body params log =
      rw
        (proceed-quiet (send_raw_response ctx method path body params none false log) read_answer
          read_answer-Quiet)
        (send_raw_response-Issues method path body params none false log)

  -- An operation of a sub-client sends nothing where its request cannot be made, and else one
  -- request of its method, path and body: with
  -- the parameters and the credential of the configuration, at most once more than the budget of
  -- retries, and once where the loop may not repeat it.
  pub send_request-Issues :
      (method path : Str) (body : Option Json) (params : Dict) (is_quick_validate : Bool)
      (log : Log)
      → Issues method path body params none is_quick_validate log
          (send_request ctx method path body params is_quick_validate log).1
  unfolding send_request send_request_raw
  send_request-Issues method path body params is_quick_validate log =
      rw
        (
          proceed-quiet
              (proceed (send_raw_response ctx method path body params none is_quick_validate log)
                (λ response. of_outcome (parse_response ctx.json_loads response is_quick_validate)))
              (λ parsed. return parsed.data_member) (λ a l. refl),
          proceed-quiet (send_raw_response ctx method path body params none is_quick_validate log)
              (λ response. of_outcome (parse_response ctx.json_loads response is_quick_validate))
              (λ a l. refl),
        )
        (send_raw_response-Issues method path body params none is_quick_validate log)
