-- ===== src/Client/Artifacts.antt =====
-- `ArtifactsClient` of client.py.
pub mod Download
mod Tests
use tamga_python.Prelude.{
  ◌≡◌, refl, ℕ, Bool, true, false, not, ◌&&◌, ◌||◌, Option, none, some, List, [], ◌∷◌, ◌++◌, leb,
  ltb, is_empty, if◌then◌else◌,
}
use tamga_python.Python.Int.{ℤ, pos, leb_ℤ}
use tamga_python.Python.Str.{Str, Bytes, codes}
use tamga_python.Python.Json.{
  Json, null, bool, int, float, str, arr, obj, Fields, end, get_or, is_truthy, to_int,
}
use tamga_python.Python.Dumps.{int_text}
use tamga_python.Python.Exc.{Result, ok, err, value_error, type_error}
use tamga_python.Errors.{TamgaError, artifact_download, as_object, parse_error_envelope}
use tamga_python.Transport.{
  Dict, Response, TamgaResponse, exc, api, raised_of, build_root_url, parse_response,
  parse_retry_after,
}
use tamga_python.Models.Resources.{parse_artifact_resource}
use tamga_python.Models.Records.{ArtifactResource}
use tamga_python.Client.Request.{HttpRequest, Context}
use tamga_python.Client.Endpoint.{Operation, endpoint}
use tamga_python.Client.Session.{
  Session, return, raise, lift, of_outcome, ◌>>=◌, send_once, send_raw_response,
}
use tamga_python.Client.Pages.{Page, call, keyset_list}

abbrev pub min_presign_ttl_seconds : ℤ
min_presign_ttl_seconds = pos 60

abbrev pub max_presign_ttl_seconds : ℤ
max_presign_ttl_seconds = pos 604800

-- ttl is None or MIN_PRESIGN_TTL_SECONDS <= ttl <= MAX_PRESIGN_TTL_SECONDS
unfoldable pub presign_ttl_fits : Option ℤ → Bool
presign_ttl_fits none = true
presign_ttl_fits (some ttl) = leb_ℤ min_presign_ttl_seconds ttl && leb_ℤ ttl max_presign_ttl_seconds

unfoldable pub download_params : Option ℤ → Dict
unfolding int_text
download_params none = (codes "redirect", codes "false") ∷ []
download_params (some ttl) = (codes "redirect", codes "false") ∷ (codes "ttl", int_text ttl) ∷ []

-- ArtifactDownloadError, without its text
abbrev pub download_error : ℕ → TamgaError
download_error status = record {
  class = artifact_download;
  status = status;
  code = str (codes "ARTIFACT_DOWNLOAD_FAILED");
  detail = null;
  pointer = null;
  meta = none;
  retry_after = none;
}

-- The request of the presigned URL: no headers, no parameters, no body.
abbrev pub storage_request : Str → HttpRequest
storage_request url = record {
  method = codes "GET";
  target = url;
  headers = [];
  params = [];
  body = none;
}

module _ (ctx : Context) where
  unfoldable pub list : Str → Option ℤ → Option Str → Session (Page ArtifactResource)
  unfolding keyset_list
  list release_id limit after =
      keyset_list ctx (Operation.list_artifacts release_id) (parse_artifact_resource ctx.reader)
        (λ artifact. artifact.id) limit after

  unfoldable pub get : Str → Session ArtifactResource
  unfolding call
  get artifact_id = do
    answer ← call ctx (Operation.get_artifact artifact_id) none []
    lift (parse_artifact_resource ctx.reader answer)

  -- the answer of the download route: an artifact, and never a redirection
  unfoldable pub presigned : Response → Session ArtifactResource
  unfolding parse_response
  presigned response =
      if leb 300 response.status_code && ltb response.status_code 400
      then raise (api (download_error response.status_code))
      else (do
        parsed ← of_outcome (parse_response ctx.json_loads response false)
        lift (parse_artifact_resource ctx.reader parsed.data_member))

  unfoldable pub get_download_url : Str → Option ℤ → Session ArtifactResource
  unfolding presign_ttl_fits download_params send_raw_response presigned
  get_download_url artifact_id ttl =
      if presign_ttl_fits ttl
      then (do
        response ←
            send_raw_response ctx (endpoint (Operation.get_download_url artifact_id)).method
              (endpoint (Operation.get_download_url artifact_id)).path none (download_params ttl)
              none false
        presigned response)
      else raise (exc value_error)

  -- the answer of the storage host
  unfoldable pub stored : Response → Session Bytes
  stored response =
      if ltb response.status_code 200 || leb 300 response.status_code
      then raise (api (download_error response.status_code))
      else return response.content

  -- the second request; `httpx` raises TypeError for a URL that is no text
  unfoldable pub fetch_stored : Json → Session Bytes
  unfolding send_once stored is_truthy
  fetch_stored (str url) =
      if is_empty url
      then raise (api (download_error 0))
      else (do response ← send_once ctx (storage_request url); stored response)
  fetch_stored url =
      if is_truthy url then raise (exc type_error) else raise (api (download_error 0))

  unfoldable pub download : Str → Option ℤ → Session Bytes
  unfolding get_download_url fetch_stored
  download artifact_id ttl = do
    artifact ← get_download_url artifact_id ttl
    fetch_stored artifact.redirect_url
