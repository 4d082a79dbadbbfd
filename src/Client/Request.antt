-- ===== src/Client/Request.antt =====
-- client.py: what a request is made of, and what is read of an answer beside its data.
pub mod Headers
use tamga_python.Prelude.{
  ◌≡◌, refl, ℕ, Bool, true, false, Option, none, some, List, [], ◌∷◌, ◌++◌, is_empty, if◌then◌else◌,
}
use tamga_python.Python.Int.{ℤ}
use tamga_python.Python.Str.{Str, Bytes, codes}
use tamga_python.Python.Json.{Json, Fields, end, get_or, null}
use tamga_python.Python.Exc.{Result, ok, ◌>>=◌}
use tamga_python.Errors.{as_object, meta_of}
use tamga_python.Transport.{
  AuthTransport, Dict, set_item, apply_auth, Response, sanitize_tamga_version,
}
use tamga_python.Models.Reader.{Reader}

-- The timeout is not kept: nothing but `httpx` reads it.
pub record TamgaConfig : Type 0 where
  pub account_id : Str
  pub host : Str
  pub api_version : Str
  pub default_auth : Option AuthTransport
  pub user_agent : Option Str
  pub max_retries : ℤ

-- The query parameters are texts: `httpx` writes a number in decimal.
pub record HttpRequest : Type 0 where
  pub method : Str
  pub target : Str
  pub headers : Dict
  pub params : Dict
  pub body : Option Json

abbrev pub Log : Type 0
Log = List HttpRequest

-- What the client runs on: its configuration, what `http.request` returns or raises, `json.loads`, `str.isalnum` of
-- a character, and what resources are read with.
pub record Context : Type 0 where
  pub config : TamgaConfig
  pub http : Log → HttpRequest → Result Response
  pub json_loads : Bytes → Result Json
  pub isalnum : ℕ → Bool
  pub reader : Reader

unfoldable pub with_user_agent : Option Str → Dict → Dict
unfolding set_item
with_user_agent none headers = headers
with_user_agent (some agent) headers =
    if is_empty agent then headers else set_item headers (codes "User-Agent") agent

-- auth_override if auth_override is not None else config.default_auth
abbrev pub effective_auth : Option AuthTransport → Option AuthTransport → Option AuthTransport
effective_auth (some auth) default = some auth
effective_auth none default = default

unfoldable pub authenticated : Option AuthTransport → Dict → Dict → Result (Dict × Dict)
unfolding apply_auth
authenticated none headers params = ok (headers, params)
authenticated (some auth) headers params = apply_auth headers params auth

-- The headers before the user agent and the credential.
abbrev pub base_headers : Str → Bool → Dict
base_headers version is_quick_validate =
    (codes "Tamga-Version", version)
    ∷ (if is_quick_validate
        then []
        else (codes "Content-Type", codes "application/vnd.api+json") ∷ [])

module _ (ctx : Context) where
  -- the request that `_send_raw_response` sends
  unfoldable pub assemble :
      Str → Str → Option Json → Dict → Option AuthTransport → Bool → Result HttpRequest
  unfolding with_user_agent authenticated sanitize_tamga_version
  assemble method path body params auth_override is_quick_validate = do
    version ← sanitize_tamga_version ctx.isalnum ctx.config.api_version
    let headers = with_user_agent ctx.config.user_agent (base_headers version is_quick_validate)
    (headers', params') ←
        authenticated (effective_auth auth_override ctx.config.default_auth) headers params
    ok (record {
      method = method;
      target = path;
      headers = headers';
      params = params';
      body = body;
    })

  -- `LicensesClient._headers`: the parameters that authentication sets are left behind
  unfoldable pub license_headers : Option AuthTransport → Result Dict
  unfolding with_user_agent authenticated sanitize_tamga_version
  license_headers auth_override = do
    version ← sanitize_tamga_version ctx.isalnum ctx.config.api_version
    (headers, params) ←
        authenticated (effective_auth auth_override ctx.config.default_auth)
          (base_headers version false) []
    ok (with_user_agent ctx.config.user_agent headers)

  -- `MachinesClient._json_headers`: the same, with no user agent
  unfoldable pub json_headers : Result Dict
  unfolding authenticated sanitize_tamga_version
  json_headers = do
    version ← sanitize_tamga_version ctx.isalnum ctx.config.api_version
    (headers, params) ← authenticated ctx.config.default_auth (base_headers version false) []
    ok headers

  -- the headers and the parameters of `MachinesClient.check_out` with `as_bytes`
  unfoldable pub octet_headers : Dict → Result (Dict × Dict)
  unfolding authenticated sanitize_tamga_version
  octet_headers params = do
    version ← sanitize_tamga_version ctx.isalnum ctx.config.api_version
    authenticated ctx.config.default_auth
        ((codes "Tamga-Version", version) ∷ (codes "Accept", codes "application/octet-stream") ∷ [])
        params

  abbrev pub meta_fields : Option Fields → Fields
  meta_fields none = end
  meta_fields (some fields) = fields

  -- _raw_response_meta
  unfoldable pub raw_response_meta : Response → Result Fields
  unfolding meta_of as_object get_or
  raw_response_meta response = if is_empty response.content then ok end else (do
    parsed ← ctx.json_loads response.content
    fields ← as_object parsed
    ok (meta_fields (meta_of (get_or fields (codes "meta") null))))
