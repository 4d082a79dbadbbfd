-- ===== src/Client/MachineCalls/Ttl.antt =====
-- How long a machine file may live, and what a check-out sends.
use tamga_python.Prelude.{
  ◌≡◌, refl, ◌⊎◌, inl, inr, Bool, true, false, Option, none, some, [], arith, Bool-cases,
}
use tamga_python.Python.Int.{ℤ, pos, negsuc, ◌≤ℤ◌}
use tamga_python.Python.Str.{Str, Bytes}
use tamga_python.Python.Json.{Json}
use tamga_python.Python.Exc.{Exc, Result, ok, err}
use tamga_python.Transport.{Dict, Response, raised, api}
use tamga_python.Models.Resources.{parse_file_resource}
use tamga_python.Models.Records.{FileResource}
use tamga_python.Client.Licenses.{check_out_params, check_out_body}
use tamga_python.Client.Request.{HttpRequest, Log, Context, octet_headers}
use tamga_python.Client.Session.{
  Session, return, lift, proceed, ◌>>=◌, send, send_request, content_of,
}
use tamga_python.Client.Session.Sending.{
  Repeats, Issues, Unassembled, Quiet, bind-Quiet, content_of-Quiet, proceed-quiet, lift-quiet,
  send-Sent, send_request-Issues,
}
use tamga_python.Client.Endpoint.{Operation, endpoint}
use tamga_python.Client.Pages.{call}
use tamga_python.Client.MachineCalls.{ttl_fits, ttl_invalid_error, fetch_file, check_out}

-- A lifetime in seconds from one up to a year of 365 days, or none.
abbrev pub InRange : Option ℤ → Type 0
InRange none = Unit
InRange (some ttl) = (pos 1 ≤ℤ ttl) × (ttl ≤ℤ pos 31536000)

abbrev pub OutOfRange : Option ℤ → Type 0
OutOfRange none = ⊥
OutOfRange (some ttl) = (ttl ≤ℤ pos 0) ⊎ (pos 31536001 ≤ℤ ttl)

ttl_fits-InRange : (ttl : Option ℤ) → ttl_fits ttl ≡ true → InRange ttl
unfolding ttl_fits
ttl_fits-InRange none h = tt
ttl_fits-InRange (some (pos n)) h = ground arith
ttl_fits-InRange (some (negsuc n)) h = absurd (ground arith)

misfit-OutOfRange : (ttl : Option ℤ) → ttl_fits ttl ≡ false → OutOfRange ttl
unfolding ttl_fits
misfit-OutOfRange none h = absurd (cc h)
misfit-OutOfRange (some (pos n)) h = ground arith
misfit-OutOfRange (some (negsuc n)) h = inl (ground arith)

module _ (ctx : Context) (machine_id : Str) where
  abbrev operation : Bool → Operation
  operation true = Operation.check_out_machine_bytes machine_id
  operation false = Operation.check_out_machine machine_id

  -- The headers of the check-out, or its request, cannot be made.
  abbrev pub Unmade : Bool → Option ℤ → Bool → Type 0
  Unmade encrypt ttl true = (x : Exc) × (octet_headers ctx (check_out_params encrypt ttl) ≡ err x)
  Unmade encrypt ttl false =
      Unassembled ctx (endpoint (operation false)).method (endpoint (operation false)).path
        (some (check_out_body encrypt ttl)) [] none false

  -- A check-out of the machine was sent, and again after answers of 429; or nothing, where it cannot
  -- be made.
  abbrev pub Asked : Bool → Option ℤ → Bool → Log → Log → Type 0
  Asked encrypt ttl as_bytes log log' =
      (Unmade encrypt ttl as_bytes × (log' ≡ log))
      ⊎ ((request : HttpRequest) × (request.method ≡ (endpoint (operation as_bytes)).method)
          × (request.target ≡ (endpoint (operation as_bytes)).path)
          × Repeats ctx request log log')

  abbrev keep_bytes : Response → Session (Bytes ⊎ FileResource)
  keep_bytes response =
      content_of ctx response >>= λ content. return {A = Bytes ⊎ FileResource} (inl content)

  keep_bytes-Quiet : (response : Response) → Quiet ctx (keep_bytes response)
  keep_bytes-Quiet response =
      bind-Quiet ctx (content_of ctx response) _ (content_of-Quiet ctx response) (λ content l. refl)

  abbrev download_request : Dict → Dict → HttpRequest
  download_request headers params = record {
    method = (endpoint (operation true)).method;
    target = (endpoint (operation true)).path;
    headers = headers;
    params = params;
    body = none;
  }

  fetched :
      (encrypt : Bool) (ttl : Option ℤ) (made : Result (Dict × Dict)) (log : Log)
      → octet_headers ctx (check_out_params encrypt ttl) ≡ made
      → Asked encrypt ttl true log
          (proceed
            (lift made log)
            (λ (headers, params). send ctx (download_request headers params) >>= keep_bytes)).1
  fetched encrypt ttl (ok (headers, params)) log e =
      let request = download_request headers params in
      inr (
        request,
        refl,
        refl,
        rw (proceed-quiet ctx (send ctx request log) keep_bytes keep_bytes-Quiet)
            (send-Sent ctx request log).0,
      )
  fetched encrypt ttl (err x) log e = inl ((x, e), refl)

  abbrev keep_file : Json → Session (Bytes ⊎ FileResource)
  keep_file answer =
      lift (parse_file_resource answer) >>= λ file. return {A = Bytes ⊎ FileResource} (inr file)

  keep_file-Quiet : (answer : Json) → Quiet ctx (keep_file answer)
  keep_file-Quiet answer =
      bind-Quiet ctx (lift (parse_file_resource answer)) _
        (lift-quiet ctx (parse_file_resource answer)) (λ file l. refl)

  issued-Asked :
      (encrypt : Bool) (ttl : Option ℤ) (log log' : Log)
      → Issues ctx
          (endpoint (operation false)).method
          (endpoint (operation false)).path
          (some (check_out_body encrypt ttl))
          []
          none
          false
          log
          log'
      → Asked encrypt ttl false log log'
  issued-Asked encrypt ttl log log' (inl e) = inl e
  issued-Asked encrypt ttl log log' (inr (request, c, r)) =
      inr (request, c.same_method, c.same_target, r)

  fetch_file-Asked :
      (encrypt : Bool) (ttl : Option ℤ) (as_bytes : Bool) (log : Log)
      → Asked encrypt ttl as_bytes log (fetch_file ctx machine_id encrypt ttl as_bytes log).1
  unfolding fetch_file call
  fetch_file-Asked encrypt ttl true log =
      fetched encrypt ttl (octet_headers ctx (check_out_params encrypt ttl)) log refl
  fetch_file-Asked encrypt ttl false log =
      let body = check_out_body encrypt ttl in
      let post = endpoint (operation false) in
      rw
        (proceed-quiet ctx (send_request ctx post.method post.path (some body) [] false log)
          keep_file keep_file-Quiet)
        (issued-Asked encrypt ttl log _
          (send_request-Issues ctx post.method post.path (some body) [] false log))

  -- A check-out of a machine sends nothing for a lifetime below one second or above 31536000 seconds,
  -- a year of 365 days, and raises TTL_INVALID. For every other lifetime, and for none, it sends the
  -- check-out of that machine alone, save where the headers or the request cannot be made, and then
  -- it sends nothing.
  pub check_out-Bounded :
      (encrypt : Bool) (ttl : Option ℤ) (as_bytes : Bool) (log : Log)
      → (OutOfRange ttl
          × (check_out ctx machine_id encrypt ttl as_bytes log
              ≡ (raised (api ttl_invalid_error), log)))
        ⊎ (InRange ttl
            × Asked encrypt ttl as_bytes log (check_out ctx machine_id encrypt ttl as_bytes log).1)
  unfolding check_out
  check_out-Bounded encrypt ttl as_bytes log = elim (Bool-cases (ttl_fits ttl)) [
    | inl e ↦ inr (ttl_fits-InRange ttl e, rw e (fetch_file-Asked encrypt ttl as_bytes log))
    | inr e ↦ inl (misfit-OutOfRange ttl e, rw e refl)
  ]
