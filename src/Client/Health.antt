-- ===== src/Client/Health.antt =====
-- `TamgaClient.health` of client.py.
use tamga_python.Prelude.{false, none, [], ◌++◌, leb, is_empty, if◌then◌else◌}
use tamga_python.Python.Int.{ℤ, pos}
use tamga_python.Python.Str.{Str, codes}
use tamga_python.Python.Json.{Json, int, str, obj, end, get_or, to_int}
use tamga_python.Python.Exc.{Result, ok, ◌>>=◌}
use tamga_python.Errors.{as_object, parse_error_envelope}
use tamga_python.Transport.{
  Response, Outcome, returned, raised, exc, raised_of, build_root_url, parse_retry_after,
}
use tamga_python.Client.Request.{Context}
use tamga_python.Client.Session.{Session, send_raw_response, of_outcome, proceed}

pub record HealthStatus : Type 0 where
  pub status : Json
  pub version : Json
  pub uptime_seconds : ℤ

-- the object that the route answers with, which is no JSON:API document
unfoldable pub health_status : Result Json → Result HealthStatus
unfolding as_object get_or to_int
health_status body = do
  parsed ← body
  fields ← as_object parsed
  uptime ← to_int (get_or fields (codes "uptime_secs") (int (pos 0)))
  ok (record {
    status = get_or fields (codes "status") (str []);
    version = get_or fields (codes "version") (str []);
    uptime_seconds = uptime;
  })

abbrev pub outcome_of {ℓ} : {A : Type ℓ} → Result A → Outcome A
outcome_of (ok a) = returned a
outcome_of (Result.err e) = raised (exc e)

module _ (ctx : Context) where
  unfoldable pub health_answer : Response → Outcome HealthStatus
  unfolding health_status raised_of parse_error_envelope parse_retry_after
  health_answer response =
      if leb 400 response.status_code
      then raised (
          raised_of (
            parse_error_envelope ctx.json_loads response.status_code response.content
              (parse_retry_after response)))
      else outcome_of (
          health_status
            (if is_empty response.content then ok (obj end) else ctx.json_loads response.content))

  unfoldable pub health_url : Str
  unfolding build_root_url
  health_url = build_root_url ctx.config.host ++ codes "/v1/health"

  unfoldable pub health : Session HealthStatus
  unfolding send_raw_response health_answer health_url
  health log =
      proceed (send_raw_response ctx (codes "GET") health_url none [] none false log)
        (λ response. of_outcome (health_answer response))
