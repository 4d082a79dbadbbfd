-- ===== src/Client/Artifacts/Download.antt =====
-- Which requests a download makes, and where its bytes are from.
use tamga_python.Prelude.{
  All-replicate, ◌≡◌, ◌≢◌, refl, ◌∙◌, ◌≤◌, ◌<◌, ◌⊎◌, inl, inr, false, ◌&&◌, Option, none, some,
  List, [], ◌∷◌, ◌++◌, arith, leb, ltb, replicate, All, Bool-cases, if◌then◌else◌,
}
use tamga_python.Python.Int.{ℤ}
use tamga_python.Python.Str.{Str, Bytes, codes, str_eq}
use tamga_python.Python.Json.{Json, null, bool, int, float, str, arr, obj, is_truthy}
use tamga_python.Python.Exc.{Result, ok, err, type_error}
use tamga_python.Transport.{
  AuthTransport, query_param, Dict, get_item, Response, exc, api, Outcome, returned, raised,
  parse_response,
}
use tamga_python.Models.Resources.{parse_artifact_resource}
use tamga_python.Models.Records.{ArtifactResource}
use tamga_python.Client.Request.{HttpRequest, Log, Context}
use tamga_python.Client.Request.Headers.{Placed}
use tamga_python.Client.Session.{raise, lift, of_outcome, proceed, send_once, send_raw_response}
use tamga_python.Client.Session.Sending.{
  Issues, proceed-quiet, lift-quiet, send_raw_response-Issues,
}
use tamga_python.Client.Endpoint.{Operation, endpoint}
use tamga_python.Client.Artifacts.{
  presign_ttl_fits, download_params, download_error, storage_request, presigned, get_download_url,
  stored, fetch_stored, download,
}

-- The credential is no query parameter of that name.
abbrev pub Spares : Str → Option AuthTransport → Type 0
Spares key none = Unit
Spares key (some auth) = (value name : Str) → auth ≡ query_param value name → name ≢ key

-- A request to the download route that asks the server not to redirect.
pub record IsPresign (artifact_id : Str) (request : HttpRequest) : Type 0 where
  pub to_route : request.target ≡ (endpoint (Operation.get_download_url artifact_id)).path
  pub no_redirect : get_item request.params (codes "redirect") ≡ some (codes "false")

download_params-redirect :
    (ttl : Option ℤ) → get_item (download_params ttl) (codes "redirect") ≡ some (codes "false")
unfolding download_params get_item str_eq
download_params-redirect none = refl
download_params-redirect (some ttl) = refl

Placed-redirect :
    (auth : Option AuthTransport) (ttl : Option ℤ) (headers params : Dict)
    → Spares (codes "redirect") auth
    → Placed auth (download_params ttl) headers params
    → get_item params (codes "redirect") ≡ some (codes "false")
Placed-redirect none ttl headers params spares (bare, same) = rw same (download_params-redirect ttl)
Placed-redirect (some auth) ttl headers params spares (inl (v, c, held, same)) =
    rw same (download_params-redirect ttl)
Placed-redirect (some auth) ttl headers params spares (inr (value, name, is_query, bare, s)) =
    s.kept (codes "redirect") (spares value name is_query) ∙ download_params-redirect ttl

-- What the answer of the storage host becomes: its content for a status of 2xx, and an error with
-- its status for any other.
abbrev pub Fetched : Response → Outcome Bytes → Type 0
Fetched answer (returned bytes) =
    (200 ≤ answer.status_code) × (answer.status_code < 300) × (bytes ≡ answer.content)
Fetched answer (raised x) =
    ((answer.status_code < 200) ⊎ (300 ≤ answer.status_code))
    × (x ≡ api (download_error answer.status_code))

abbrev pub IsRaised {ℓ} : {A : Type ℓ} → Outcome A → Type 0
IsRaised (returned a) = ⊥
IsRaised (raised x) = Unit

stored-Fetched :
    (ctx : Context) (answer : Response) (log : Log) → Fetched answer (stored ctx answer log).0
unfolding stored
stored-Fetched ctx answer log = ground arith

stored-quiet : (ctx : Context) (answer : Response) (log : Log) → (stored ctx answer log).1 ≡ log
unfolding stored
stored-quiet ctx answer log = ground arith

-- The same for a request that may raise, whose exception is then raised.
abbrev pub FetchedFrom : Result Response → Outcome Bytes → Type 0
FetchedFrom (ok answer) outcome = Fetched answer outcome
FetchedFrom (err e) outcome = outcome ≡ raised (exc e)

stored-FetchedFrom :
    (ctx : Context) (r : Result Response) (log : Log)
    → FetchedFrom r (proceed (lift r log) (stored ctx)).0
stored-FetchedFrom ctx (ok answer) log = stored-Fetched ctx answer log
stored-FetchedFrom ctx (err e) log = refl

stored_from-quiet :
    (ctx : Context) (r : Result Response) (log : Log) → (proceed (lift r log) (stored ctx)).1 ≡ log
stored_from-quiet ctx (ok answer) log = stored-quiet ctx answer log
stored_from-quiet ctx (err e) log = refl

module _ (ctx : Context) (artifact_id : Str) where
  -- Only requests to the download route were added.
  abbrev Presigned : Log → Log → Type 0
  Presigned log log' =
      (sent : List HttpRequest) × All (IsPresign artifact_id) sent × (log' ≡ sent ++ log)

  -- Reading the answer of the download route sends nothing.
  presigned-quiet : (response : Response) (log : Log) → (presigned ctx response log).1 ≡ log
  unfolding presigned
  presigned-quiet response log =
      elim (Bool-cases (leb 300 response.status_code && ltb response.status_code 400)) [
        | inl e ↦ rw e refl
        | inr e ↦ rw e (
            proceed-quiet ctx (of_outcome (parse_response ctx.json_loads response false) log)
              (λ parsed. lift (parse_artifact_resource ctx.reader parsed.data_member))
              (λ parsed l.
                lift-quiet ctx (parse_artifact_resource ctx.reader parsed.data_member) l))
      ]

  -- The artifact that the server described redirects there.
  abbrev pub Redirects : Outcome ArtifactResource → Json → Type 0
  Redirects (returned artifact) url = artifact.redirect_url ≡ url
  Redirects (raised x) url = ⊥

  -- How a download ends: without a request to the storage host, and then with an error; or with
  -- one, and then with what its answer says.
  abbrev pub Downloaded : Outcome ArtifactResource → Log → Outcome Bytes → Log → Type 0
  Downloaded described log outcome log' =
      (sent : List HttpRequest) × All (IsPresign artifact_id) sent
      × ((IsRaised outcome × (log' ≡ sent ++ log))
          ⊎ ((url : Str) × (url ≢ [])
              × Redirects described (str url)
              × FetchedFrom (ctx.http (sent ++ log) (storage_request url)) outcome
              × (log' ≡ storage_request url ∷ (sent ++ log))))

  no_text-Downloaded :
      (described : Outcome ArtifactResource) (url : Json) (sent : List HttpRequest) (log : Log)
      → All (IsPresign artifact_id) sent
      → (let run : Outcome Bytes × Log =
            (if is_truthy url then raise (exc type_error) else raise (api (download_error 0)))
              (sent ++ log) in
          Downloaded described log run.0 run.1)
  no_text-Downloaded described url sent log all = elim (Bool-cases (is_truthy url)) [
    | inl e ↦ rw e (sent, all, inl (tt, refl))
    | inr e ↦ rw e (sent, all, inl (tt, refl))
  ]

  fetch_stored-Downloaded :
      (described : Outcome ArtifactResource) (url : Json) (sent : List HttpRequest) (log : Log)
      → Redirects described url
      → All (IsPresign artifact_id) sent
      → Downloaded described log
          (fetch_stored ctx url (sent ++ log)).0
          (fetch_stored ctx url (sent ++ log)).1
  unfolding fetch_stored send_once
  fetch_stored-Downloaded described (str []) sent log named all = (sent, all, inl (tt, refl))
  fetch_stored-Downloaded described (str (c ∷ url)) sent log named all =
      let answer = ctx.http (sent ++ log) (storage_request (c ∷ url)) in
      (
        sent,
        all,
        inr (
          c ∷ url,
          (λ e. absurd (cc e)),
          named,
          stored-FetchedFrom ctx answer (storage_request (c ∷ url) ∷ (sent ++ log)),
          stored_from-quiet ctx answer (storage_request (c ∷ url) ∷ (sent ++ log)),
        ),
      )
  fetch_stored-Downloaded described null sent log named all =
      no_text-Downloaded described null sent log all
  fetch_stored-Downloaded described (bool b) sent log named all =
      no_text-Downloaded described (bool b) sent log all
  fetch_stored-Downloaded described (int n) sent log named all =
      no_text-Downloaded described (int n) sent log all
  fetch_stored-Downloaded described (float f) sent log named all =
      no_text-Downloaded described (float f) sent log all
  fetch_stored-Downloaded described (arr xs) sent log named all =
      no_text-Downloaded described (arr xs) sent log all
  fetch_stored-Downloaded described (obj fields) sent log named all =
      no_text-Downloaded described (obj fields) sent log all

  after_presign-Downloaded :
      (described : Outcome ArtifactResource) (log log' : Log)
      → Presigned log log'
      → (let run : Outcome Bytes × Log =
            proceed (described, log') (λ artifact. fetch_stored ctx artifact.redirect_url) in
          Downloaded described log run.0 run.1)
  after_presign-Downloaded (returned artifact) log log' (sent, all, e) =
      rw e (fetch_stored-Downloaded (returned artifact) artifact.redirect_url sent log refl all)
  after_presign-Downloaded (raised x) log log' (sent, all, e) = (sent, all, inl (tt, e))

  module _ (ttl : Option ℤ) (spares : Spares (codes "redirect") ctx.config.default_auth) where
    issued-Presigned :
        (log log' : Log)
        → Issues ctx
            (codes "GET")
            (endpoint (Operation.get_download_url artifact_id)).path
            none
            (download_params ttl)
            none
            false
            log
            log'
        → Presigned log log'
    issued-Presigned log log' (inl (unmade, e)) = ([], tt, e)
    issued-Presigned log log' (inr (request, c, r)) =
        let presign : IsPresign artifact_id request = record {
          to_route = c.same_target;
          no_redirect =
              Placed-redirect ctx.config.default_auth ttl request.headers request.params spares
                c.credential;
        } in
        (
          replicate r.count request,
          All-replicate (IsPresign artifact_id) request r.count presign,
          r.extends,
        )

    get_download_url-Presigned :
        (log : Log) → Presigned log (get_download_url ctx artifact_id ttl log).1
    unfolding get_download_url
    get_download_url-Presigned log = elim (Bool-cases (presign_ttl_fits ttl)) [
      | inr e ↦ rw e ([], tt, refl)
      | inl e ↦
          rw
            (
              e,
              proceed-quiet ctx
                  (send_raw_response ctx (endpoint (Operation.get_download_url artifact_id)).method
                    (endpoint (Operation.get_download_url artifact_id)).path none
                    (download_params ttl) none false log)
                  (presigned ctx) presigned-quiet,
            )
            (issued-Presigned log _ (
              send_raw_response-Issues ctx (codes "GET")
                (endpoint (Operation.get_download_url artifact_id)).path none (download_params ttl)
                none false log))
    ]

    -- A download that the configured credential does not disturb asks the download route, always
    -- without a redirection, and then sends at most one request more: to the URL that the server
    -- named, with no header, no parameter and no body, and so without the credential. The bytes that
    -- are returned are the content of the answer to that request, whose status is then of 2xx; with
    -- any other status its error is raised, and so is what the request raises itself; and where no such request is sent, an error is raised.
    pub download-Downloaded :
        (log : Log)
        → Downloaded
            (get_download_url ctx artifact_id ttl log).0
            log
            (download ctx artifact_id ttl log).0
            (download ctx artifact_id ttl log).1
    unfolding download
    download-Downloaded log =
        after_presign-Downloaded (get_download_url ctx artifact_id ttl log).0 log
          (get_download_url ctx artifact_id ttl log).1 (get_download_url-Presigned log)
