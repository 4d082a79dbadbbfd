-- ===== src/Client/Licenses.antt =====
-- `LicensesClient` of client.py, with the scope of a validation and the license resource of
-- models/license.py. A license that is fetched knows the id that its entitlements are listed by.
pub mod Scope
pub mod Cache
pub mod Validation
mod Tests
use tamga_python.Prelude.{
  ◌≡◌, refl, Bool, true, false, Option, none, some, List, [], ◌∷◌, if◌then◌else◌, any, ◌⊎◌, inl,
  inr,
}
use tamga_python.Python.Int.{ℤ}
use tamga_python.Python.Str.{Str, Bytes, codes, str_eq}
use tamga_python.Python.Json.{
  Json, null, bool, int, str, arr, obj, Items, nil, cons, Fields, end, field, get_or, is_truthy,
}
use tamga_python.Python.Dumps.{int_text}
use tamga_python.Python.Exc.{Result, ok, err, runtime_error}
use tamga_python.Errors.{as_object}
use tamga_python.Transport.{AuthTransport, license, Dict, set_item, exc}
use tamga_python.Models.License.{LicenseResource, license_from_data}
use tamga_python.Models.Meta.{ValidationMeta, parse_validation_meta}
use tamga_python.Models.Policy.Parsing.{PolicyResource, parse_policy_resource}
use tamga_python.Models.Resources.{parse_file_resource}
use tamga_python.Models.Records.{Entitlement, FileResource}
use tamga_python.Client.Request.{HttpRequest, Context, effective_auth, license_headers}
use tamga_python.Client.Endpoint.{Operation, endpoint}
use tamga_python.Client.Session.{
  Session, return, raise, lift, ◌>>=◌, send, send_request, client_request, client_answer,
  content_of,
}
use tamga_python.Client.Pages.{call}
use tamga_python.Client.Entitlements.{list_all}

-- The UUIDs of a scope are their texts.
pub record LicenseScope : Type 0 where
  pub product : Option Str
  pub policy : Option Str
  pub user : Option Str
  pub environment : Option Str
  pub entitlements : Option (List Str)
  pub fingerprint : Option Str
  pub version : Option Str
  pub checksum : Option Str

abbrev pub texts : List Str → Items
texts [] = nil
texts (s ∷ ss) = cons (str s) (texts ss)

-- if v is not None: result[k] = v, before the later members
unfoldable pub with_text : Str → Option Str → Fields → Fields
with_text key none rest = rest
with_text key (some s) rest = field key (str s) rest

unfoldable pub with_texts : Str → Option (List Str) → Fields → Fields
with_texts key none rest = rest
with_texts key (some ss) rest = field key (arr (texts ss)) rest

-- _scope_to_dict, on a scope
unfoldable pub scope_to_dict : LicenseScope → Fields
unfolding with_text with_texts
scope_to_dict scope = with_text (codes "product") scope.product (
    with_text (codes "policy") scope.policy (
      with_text (codes "user") scope.user (
        with_text (codes "environment") scope.environment (
          with_texts (codes "entitlements") scope.entitlements
            (with_text (codes "fingerprint") scope.fingerprint end)))))

-- `if scope_dict: meta["scope"] = scope_dict`, and None for no scope
abbrev pub with_scope : Fields → Fields → Fields
with_scope end rest = rest
with_scope scope rest = field (codes "scope") (obj scope) rest

unfoldable pub scope_member : Option LicenseScope → Fields → Fields
unfolding scope_to_dict
scope_member none rest = rest
scope_member (some scope) rest = with_scope (scope_to_dict scope) rest

abbrev pub body_with_meta : Fields → Option Json
body_with_meta end = none
body_with_meta meta = some (obj (field (codes "meta") (obj meta) end))

-- the body of `validate_by_id`, or None
unfoldable pub validation_body : Option LicenseScope → Bool → Option Json
unfolding scope_member
validation_body scope skip_touch =
    body_with_meta
      (scope_member scope (if skip_touch then field (codes "skip_touch") (bool true) end else end))

pub record ValidationResult : Type 0 where
  pub license : Option LicenseResource
  pub meta : ValidationMeta

-- if encrypt, then "true"
abbrev pub bool_text : Bool → Str
bool_text true = codes "true"
bool_text false = codes "false"

abbrev pub ttl_json : Option ℤ → Json
ttl_json none = null
ttl_json (some ttl) = int ttl

-- the parameters of a check-out
unfoldable pub check_out_params : Bool → Option ℤ → Dict
unfolding int_text
check_out_params encrypt none = (codes "encrypt", bool_text encrypt) ∷ []
check_out_params encrypt (some ttl) =
    (codes "encrypt", bool_text encrypt) ∷ (codes "ttl", int_text ttl) ∷ []

-- the body of a check-out
abbrev pub check_out_body : Bool → Option ℤ → Json
check_out_body encrypt ttl = obj (
    field (codes "meta")
      (obj (field (codes "encrypt") (bool encrypt) (field (codes "ttl") (ttl_json ttl) end))) end)

module _ (ctx : Context) where
  -- the license of a response, where there is one, with the `meta` of it
  unfoldable pub validation_result : Json → Fields → Session ValidationResult
  unfolding is_truthy
  validation_result license_data meta = do
    found ←
        if is_truthy license_data
        then (do fetched ← lift (license_from_data ctx.reader license_data); return (some fetched))
        else return none
    parsed ← lift (parse_validation_meta ctx.reader meta)
    return (record { license = found; meta = parsed })

  -- a request of `_client_answer` with the headers of `_headers`
  unfoldable pub license_request :
      Operation → Option AuthTransport → Option Json → Session (Json × Fields)
  unfolding license_headers client_answer
  license_request op auth_override body = do
    headers ← lift (license_headers ctx auth_override)
    client_answer ctx (record {
      method = (endpoint op).method;
      target = (endpoint op).path;
      headers = headers;
      params = [];
      body = body;
    })

  unfoldable pub validate_by_key : Str → Session ValidationResult
  unfolding license_request validation_result
  validate_by_key key = do
    (license_data, meta) ←
        license_request Operation.validate_by_key
          (effective_auth ctx.config.default_auth (some (license key)))
          (some (obj (field (codes "key") (str key) end)))
    validation_result license_data meta

  unfoldable pub validate_by_id : Str → Option LicenseScope → Bool → Session ValidationResult
  unfolding license_request validation_result validation_body
  validate_by_id license_id scope skip_touch = do
    (license_data, meta) ←
        license_request (Operation.validate_by_id license_id) none
          (validation_body scope skip_touch)
    validation_result license_data meta

  unfoldable pub quick_validate : Str → Session ValidationResult
  unfolding send_request as_object
  quick_validate license_id = do
    answer ←
        send_request ctx (endpoint (Operation.quick_validate license_id)).method
          (endpoint (Operation.quick_validate license_id)).path none [] true
    fields ← lift (as_object answer)
    meta ← lift (parse_validation_meta ctx.reader fields)
    return (record { license = none; meta = meta })

  unfoldable pub get : Str → Session LicenseResource
  unfolding call
  get license_id = do
    answer ← call ctx (Operation.get_license license_id) none []
    lift (license_from_data ctx.reader answer)

  unfoldable pub get_policy : Str → Session PolicyResource
  unfolding call
  get_policy license_id = do
    answer ← call ctx (Operation.get_license_policy license_id) none []
    lift (parse_policy_resource ctx.reader answer)

  unfoldable pub check_in : Str → Session LicenseResource
  unfolding call
  check_in license_id = do
    answer ← call ctx (Operation.check_in license_id) none []
    lift (license_from_data ctx.reader answer)

  -- `check_out`: the bytes of a file, or its resource
  unfoldable pub check_out : Str → Bool → Option ℤ → Bool → Session (Bytes ⊎ FileResource)
  unfolding check_out_params license_headers send content_of call set_item
  check_out license_id encrypt ttl true = do
    headers ← lift (license_headers ctx none)
    response ← client_request ctx (record {
      method = (endpoint (Operation.check_out_license_bytes license_id)).method;
      target = (endpoint (Operation.check_out_license_bytes license_id)).path;
      headers = set_item headers (codes "Accept") (codes "application/octet-stream");
      params = check_out_params encrypt ttl;
      body = none;
    })
    content ← content_of ctx response
    return (inl content)
  check_out license_id encrypt ttl false = do
    answer ←
        call ctx (Operation.check_out_license license_id) (some (check_out_body encrypt ttl)) []
    file ← lift (parse_file_resource answer)
    return (inr file)

  -- `LicenseResource.refresh_entitlements`: the license with its new cache, and the entitlements
  unfoldable pub refresh_entitlements :
      LicenseResource → Session (LicenseResource × List Entitlement)
  refresh_entitlements resource = elim (resource.entitlements_fetcher) [
    | none ↦ raise (exc runtime_error)
    | some license_id ↦ do
      found ← list_all ctx license_id
      return (record resource { entitlements_cache = some found }, found)
  ]

  -- e.code == code
  unfoldable pub has_code : Str → Entitlement → Bool
  unfolding str_eq
  has_code code entitlement = elim (entitlement.code) [ str s ↦ str_eq s code | _ ↦ false ]

  -- `LicenseResource.has_entitlement`, with the license after it
  unfoldable pub has_entitlement : LicenseResource → Str → Session (LicenseResource × Bool)
  unfolding refresh_entitlements has_code
  has_entitlement resource code = elim (resource.entitlements_cache) [
    | some found ↦ return (resource, any (has_code code) found)
    | none ↦ do
      (fresh, found) ← refresh_entitlements resource
      return (fresh, any (has_code code) found)
  ]
