-- ===== src/Client/Session/Exchange.antt =====
-- What a call returns, by the answer to its last request.
use tamga_python.Prelude.{◌≡◌, refl, ℕ, ◌⊎◌, inl, inr, Bool, Option, none, ◌∷◌, ◌++◌, replicate}
use tamga_python.Python.Str.{Str}
use tamga_python.Python.Json.{Json}
use tamga_python.Python.Exc.{Exc, Result, ok, err, value_error}
use tamga_python.Transport.{
  Dict, Response, TamgaResponse, exc, Outcome, returned, raised, parse_response,
}
use tamga_python.Client.Request.{HttpRequest, Log, Context, assemble}
use tamga_python.Client.Request.Headers.{Carries, assemble-Carries}
use tamga_python.Client.Session.{
  return, proceed, lift, of_outcome, send, send_raw_response, send_request_raw, send_request,
}
use tamga_python.Client.Session.Sending.{Repeats, Answered, NegativeWait, Ended, send-Sent}

-- The data of an answer that was read.
abbrev pub data_of_answer : Outcome TamgaResponse → Outcome Json
data_of_answer (returned response) = returned response.data_member
data_of_answer (raised x) = raised x

module _ (ctx : Context) (method path : Str) (body : Option Json) (params : Dict)
    (is_quick_validate : Bool) where
  abbrev pub read_data : Response → Outcome Json
  read_data response = data_of_answer (parse_response ctx.json_loads response is_quick_validate)

  -- What the last request comes to, after `before` equal ones: what its answer is read as, save for
  -- a negative wait, or what it raised.
  abbrev pub ReadAs : HttpRequest → ℕ → Result Response → Outcome Json → Type 0
  ReadAs request before (ok response) outcome =
      (outcome ≡ read_data response)
      ⊎ ((outcome ≡ raised (exc value_error)) × NegativeWait ctx request before response)
  ReadAs request before (err e) outcome = outcome ≡ raised (exc e)

  abbrev pub Ends : HttpRequest → Log → Log → Outcome Json → Type 0
  Ends request log log' outcome =
      (before : ℕ) × (log' ≡ request ∷ (replicate before request ++ log))
      × ReadAs request before (ctx.http (replicate before request ++ log) request) outcome

  -- A call raises what the making of its request raised and sends nothing, or sends its request.
  abbrev pub Exchanged : Log → Outcome Json × Log → Type 0
  Exchanged log run =
      ((x : Exc) × (assemble ctx method path body params none is_quick_validate ≡ err x)
        × (run ≡ (raised (exc x), log)))
      ⊎ ((request : HttpRequest) × Carries ctx method path body params none is_quick_validate
            request
          × Repeats ctx request log run.1
          × Ends request log run.1 run.0)

  -- The reading of an answer.
  abbrev finish : Outcome Response × Log → Outcome Json × Log
  finish run =
      proceed {B = Json}
        (proceed {B = TamgaResponse} run
          (λ response. of_outcome (parse_response ctx.json_loads response is_quick_validate)))
        (λ parsed. return parsed.data_member)

  finish-read :
      (o : Outcome TamgaResponse) (log : Log)
      → proceed {B = Json} (o, log) (λ parsed. return parsed.data_member) ≡ (data_of_answer o, log)
  finish-read (returned response) log = refl
  finish-read (raised x) log = refl

  finish-log : (o : Outcome Response) (log : Log) → (finish (o, log)).1 ≡ log
  finish-log (returned response) log =
      rw (finish-read (parse_response ctx.json_loads response is_quick_validate) log) refl
  finish-log (raised x) log = refl

  finish-ReadAs :
      (request : HttpRequest) (before : ℕ) (r : Result Response) (o : Outcome Response) (log : Log)
      → Ended ctx request before r o
      → ReadAs request before r (finish (o, log)).0
  finish-ReadAs request before (ok response) o log (inl e) =
      rw (e, finish-read (parse_response ctx.json_loads response is_quick_validate) log) (inl refl)
  finish-ReadAs request before (ok response) o log (inr (e, wait)) = rw e (inr (refl, wait))
  finish-ReadAs request before (err x) o log e = rw e refl

  finish-Ends :
      (request : HttpRequest) (log : Log) (o : Outcome Response) (log' : Log)
      → Answered ctx request log log' o
      → (finish (o, log')).1 ≡ log' × Ends request log log' (finish (o, log')).0
  finish-Ends request log o log' (before, e, ended) = (
    finish-log o log',
    (
      before,
      e,
      finish-ReadAs request before (ctx.http (replicate before request ++ log) request) o log'
          ended,
    ),
  )

  assembled :
      (r : Result HttpRequest) (log : Log)
      → assemble ctx method path body params none is_quick_validate ≡ r
      → Exchanged log (finish (proceed (lift r log) (send ctx)))
  assembled (err x) log e = inl (x, e, refl)
  assembled (ok request) log e =
      let carried = assemble-Carries ctx method path body params none is_quick_validate request e in
      let (repeats, answered) = send-Sent ctx request log in
      let run = send ctx request log in
      let (same, ends) = finish-Ends request log run.0 run.1 answered in
      inr (request, carried, rw same repeats, rw same ends)

  -- A call whose request cannot be made raises the error of that and sends nothing. Any other sends
  -- its request, at most once more than the budget of retries, and once where the loop may not
  -- repeat it; the request has the given method, path, body and parameters, and the credential of
  -- the configuration in its place. It raises what the last sending raised, and else it returns or
  -- raises what the answer to that is read as, data below 400 and the error of its envelope from
  -- there on. It raises ValueError instead only if that answer is a 429 with a negative Retry-After
  -- to a request that would be repeated.
  pub send_request-Exchanged :
      (log : Log) → Exchanged log (send_request ctx method path body params is_quick_validate log)
  unfolding send_request send_request_raw send_raw_response
  send_request-Exchanged log =
      assembled (assemble ctx method path body params none is_quick_validate) log refl
