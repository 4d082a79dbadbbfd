-- ===== src/Client/Session.antt =====
-- client.py: the sending of a request and the reading of its answer, which all sub-clients share. A
-- computation carries the requests that were sent, the latest first.
pub mod Sending
pub mod Exchange
mod Tests
use tamga_python.Prelude.{
  ◌≡◌, refl, ℕ, Bool, true, false, Option, none, some, List, [], ◌∷◌, ◌++◌, leb, if◌then◌else◌,
  replicate,
}
use tamga_python.Python.Str.{Str, Bytes, codes}
use tamga_python.Python.Json.{Json, Fields}
use tamga_python.Python.Exc.{Result, ok, err, value_error}
use tamga_python.Errors.{parse_error_envelope}
use tamga_python.Transport.{
  AuthTransport, Dict, Response, TamgaResponse, Raised, exc, raised_of, Outcome, returned, raised,
  parse_response,
}
use tamga_python.Client.Retry
use tamga_python.Client.Retry.{request_with_retry}
use tamga_python.Client.Request.{HttpRequest, Log, Context, assemble, raw_response_meta}

abbrev pub Session {ℓ} : Type ℓ → Type ℓ
Session A = Log → Outcome A × Log

abbrev pub return {ℓ} : {A : Type ℓ} → A → Session A
return a log = (returned a, log)

abbrev pub raise {ℓ} : {A : Type ℓ} → Raised → Session A
raise r log = (raised r, log)

abbrev pub proceed {ℓ κ} :
    {A : Type ℓ} {B : Type κ} → Outcome A × Log → (A → Session B) → Outcome B × Log
proceed (returned a, log) f = f a log
proceed (raised r, log) f = (raised r, log)

infixl 5 ◌>>=◌ ◌>>◌
abbrev pub ◌>>=◌ {ℓ κ} : {A : Type ℓ} {B : Type κ} → Session A → (A → Session B) → Session B
◌>>=◌ m f log = proceed (m log) f

abbrev pub ◌>>◌ {ℓ κ} : {A : Type ℓ} {B : Type κ} → Session A → Session B → Session B
m >> k = m >>= λ ignored. k

-- Computations that send nothing.
abbrev pub lift {ℓ} : {A : Type ℓ} → Result A → Session A
lift (ok a) log = (returned a, log)
lift (err e) log = (raised (exc e), log)

abbrev pub of_outcome {ℓ} : {A : Type ℓ} → Outcome A → Session A
of_outcome o log = (o, log)

module _ (ctx : Context) where
  -- The end of the request loop, and the requests that it added. The loop does not lack fuel.
  unfoldable pub after_loop : HttpRequest → Log → Option Retry.Run → Outcome Response × Log
  after_loop request log none = (raised (exc value_error), log)
  after_loop request log (some run) = (run.outcome, replicate run.sent request ++ log)

  -- _request_with_retry, as the sub-clients call it
  unfoldable pub send : HttpRequest → Session Response
  unfolding after_loop request_with_retry
  send request log = after_loop request log (
      request_with_retry (λ n. ctx.http (replicate n request ++ log) request) ctx.config.max_retries
        request.method request.target)

  -- http.request(...), without the loop
  unfoldable pub send_once : HttpRequest → Session Response
  send_once request log = lift (ctx.http log request) (request ∷ log)

  unfoldable pub send_raw_response :
      Str → Str → Option Json → Dict → Option AuthTransport → Bool → Session Response
  unfolding send assemble
  send_raw_response method path body params auth_override is_quick_validate = do
    request ← lift (assemble ctx method path body params auth_override is_quick_validate)
    send request

  -- _send_request_raw
  unfoldable pub send_request_raw :
      Str → Str → Option Json → Dict → Option AuthTransport → Bool → Session TamgaResponse
  unfolding send_raw_response parse_response
  send_request_raw method path body params auth_override is_quick_validate = do
    response ← send_raw_response method path body params auth_override is_quick_validate
    of_outcome (parse_response ctx.json_loads response is_quick_validate)

  -- `_send_request`, whose callers override no credential
  unfoldable pub send_request : Str → Str → Option Json → Dict → Bool → Session Json
  unfolding send_request_raw
  send_request method path body params is_quick_validate = do
    parsed ← send_request_raw method path body params none is_quick_validate
    return parsed.data_member

  -- _send_request_with_meta
  unfoldable pub send_request_with_meta : Str → Str → Option Json → Dict → Session (Json × Fields)
  unfolding send_raw_response parse_response raw_response_meta
  send_request_with_meta method path body params = do
    response ← send_raw_response method path body params none false
    parsed ← of_outcome (parse_response ctx.json_loads response false)
    meta ← lift (raw_response_meta ctx response)
    return (parsed.data_member, meta)

  -- `_client_request`, whose headers and parameters the caller has made
  abbrev pub client_request : HttpRequest → Session Response
  client_request request = send request

  -- `_client_request` followed by `parse_response` and `_raw_response_meta`
  unfoldable pub client_answer : HttpRequest → Session (Json × Fields)
  unfolding send parse_response raw_response_meta
  client_answer request = do
    response ← client_request request
    parsed ← of_outcome (parse_response ctx.json_loads response false)
    meta ← lift (raw_response_meta ctx response)
    return (parsed.data_member, meta)

  -- the bytes of an answer, or its error
  unfoldable pub content_of : Response → Session Bytes
  unfolding raised_of parse_error_envelope
  content_of response =
      if leb 400 response.status_code
      then raise (
          raised_of
            (parse_error_envelope ctx.json_loads response.status_code response.content none))
      else return response.content
