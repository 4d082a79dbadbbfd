-- ===== src/Transport.antt =====
-- transport.py: URLs, the version header, the ways to authenticate, and the parsing of responses.
pub mod Url
pub mod Version
pub mod Auth
mod Tests
use tamga_python.Prelude.{
  ◌≡◌, refl, ℕ, Bool, true, false, not, ◌||◌, Option, none, some, List, [], ◌∷◌, ◌++◌, leb, ◌==◌,
  if◌then◌else◌, is_empty, take, keep_if,
}
use tamga_python.Python.Int.{ℤ, int_of_text}
use tamga_python.Python.Str.{
  Str, Bytes, codes, str_eq, starts_with, remove_prefix, rstrip, strip, is_space,
}
use tamga_python.Python.Base64.{b64encode}
use tamga_python.Python.Json.{Json, null, Fields, get, get_or}
use tamga_python.Python.Exc.{Exc, Result, ok, err, ◌>>=◌, ◌>>◌, guard, value_error}
use tamga_python.Crypto.{encode_utf8}
use tamga_python.Errors.{TamgaError, as_object, parse_error_envelope}

unfoldable pub is_slash : ℕ → Bool
is_slash c = c == b'/'

-- the scheme of a host: plain HTTP only where it is asked for
unfoldable pub scheme_of : Str → Str
unfolding starts_with
scheme_of stripped = if starts_with stripped (codes "http://") then codes "http" else codes "https"

unfoldable pub normalized_host : Str → Str
unfolding remove_prefix rstrip is_slash
normalized_host stripped =
    rstrip is_slash (remove_prefix (remove_prefix stripped (codes "https://")) (codes "http://"))

unfoldable pub build_root_url : Str → Str
unfolding scheme_of normalized_host strip is_space
build_root_url host =
    let stripped = strip is_space host in
    scheme_of stripped ++ (codes "://" ++ normalized_host stripped)

pub build_base_url : Str → Str → Str
unfolding scheme_of normalized_host strip is_space
build_base_url host account_id =
    let stripped = strip is_space host in
    scheme_of stripped
    ++ (codes "://" ++ (normalized_host stripped ++ (codes "/v1/accounts/" ++ account_id)))

abbrev pub max_tamga_version_length : ℕ
max_tamga_version_length = 32

-- c.isalnum() or c in ".-", where `isalnum` is Python's test of one character
abbrev pub is_version_char : (ℕ → Bool) → ℕ → Bool
is_version_char isalnum c = isalnum c || (c == b'.') || (c == b'-')

unfoldable pub sanitize_tamga_version : (ℕ → Bool) → Str → Result Str
sanitize_tamga_version isalnum version = do
  let sanitized = take max_tamga_version_length (keep_if (is_version_char isalnum) version)
  guard (not (is_empty sanitized)) value_error
  ok sanitized

pub record BasicAuth : Type 0 where
  pub email : Option Str
  pub password : Option Str
  pub token : Option Str
  pub license_key : Option Str

-- self.password or ''
abbrev pub or_empty_text : Option Str → Str
or_empty_text none = []
or_empty_text (some s) = s

-- BasicAuth._user_pass, on its fields: the first of email, token and license key that is set
unfoldable pub user_pass_of : Option Str → Option Str → Option Str → Option Str → Result Str
user_pass_of (some email) password token license_key = ok (email ++ (b':' ∷ or_empty_text password))
user_pass_of none password (some token) license_key = ok (token ++ (b':' ∷ []))
user_pass_of none password none (some key) = ok (codes "license:" ++ key)
user_pass_of none password none none = err value_error

unfoldable pub user_pass : BasicAuth → Result Str
unfolding user_pass_of
user_pass auth = user_pass_of auth.email auth.password auth.token auth.license_key

-- BearerAuth, BasicAuth, LicenseAuth and QueryParamAuth, with its value and its parameter's name
pub data AuthTransport : Type 0 where
  bearer : Str → AuthTransport
  basic : BasicAuth → AuthTransport
  license : Str → AuthTransport
  query_param : Str → Str → AuthTransport

-- A dict of texts, as its entries.
abbrev pub Dict : Type 0
Dict = List (Str × Str)

-- d[k] = v
unfoldable pub set_item : Dict → Str → Str → Dict
unfolding str_eq
set_item [] k v = (k, v) ∷ []
set_item ((j, w) ∷ d) k v =
    let rest = set_item d k v in if str_eq j k then (j, v) ∷ d else (j, w) ∷ rest

-- d.get(k)
unfoldable pub get_item : Dict → Str → Option Str
unfolding str_eq
get_item [] k = none
get_item ((j, w) ∷ d) k = let rest = get_item d k in if str_eq j k then some w else rest

-- the headers and the parameters after `apply_auth`, which sets them in place
unfoldable pub apply_auth : Dict → Dict → AuthTransport → Result (Dict × Dict)
unfolding set_item user_pass encode_utf8
apply_auth headers params (bearer token) =
    ok (set_item headers (codes "Authorization") (codes "Bearer " ++ token), params)
apply_auth headers params (basic auth) = do
  pair ← user_pass auth
  bytes ← encode_utf8 pair
  ok (set_item headers (codes "Authorization") (codes "Basic " ++ b64encode bytes), params)
apply_auth headers params (license key) =
    ok (set_item headers (codes "Authorization") (codes "License " ++ key), params)
apply_auth headers params (query_param value param_name) =
    ok (headers, set_item params param_name value)

-- An HTTP response: its status, its body, and its headers by name.
pub record Response : Type 0 where
  pub status_code : ℕ
  pub content : Bytes
  pub header : Str → Option Str

-- int(raw.strip()), and None where that raises ValueError
seconds_of : Option Str → Option ℤ
unfolding strip int_of_text
seconds_of none = none
seconds_of (some raw) = int_of_text (strip is_space raw)

unfoldable pub parse_retry_after : Response → Option ℤ
unfolding seconds_of
parse_retry_after response = seconds_of (response.header (codes "Retry-After"))

pub record TamgaResponse : Type 0 where
  pub data_member : Json
  pub tamga_version : Option Str
  pub tamga_edition : Option Str
  pub tamga_mode : Option Str
  pub request_id : Option Str

-- What a call raises: an exception of Python's or an error of the API.
pub data Raised : Type 0 where
  exc : Exc → Raised
  api : TamgaError → Raised

-- raise parse_error_envelope(...)
unfoldable pub raised_of : Result TamgaError → Raised
raised_of (ok e) = api e
raised_of (err e) = exc e

pub data Outcome {ℓ} (A : Type ℓ) : Type ℓ where
  returned : A → Outcome A
  raised : Raised → Outcome A

-- body.get("data", body), where `body` is an object; None for an empty body
unfoldable pub data_of : Bool → Json → Result Json
unfolding as_object get_or
data_of is_quick_validate null = ok null
data_of true body = ok body
data_of false body = do fields ← as_object body; ok (get_or fields (codes "data") body)

-- json.loads(response.content) if response.content else None
body_of : (Bytes → Result Json) → Bytes → Result Json
body_of json_loads content = if is_empty content then ok null else json_loads content

response_of : Response → Result Json → Outcome TamgaResponse
response_of response (err e) = raised (exc e)
response_of response (ok v) = returned (record {
  data_member = v;
  tamga_version = response.header (codes "Tamga-Version");
  tamga_edition = response.header (codes "Tamga-Edition");
  tamga_mode = response.header (codes "Tamga-Mode");
  request_id = response.header (codes "X-Request-Id");
})

unfoldable pub parse_response : (Bytes → Result Json) → Response → Bool → Outcome TamgaResponse
unfolding raised_of body_of data_of response_of parse_retry_after
parse_response json_loads response is_quick_validate =
    if leb 400 response.status_code
    then raised (
        raised_of (
          parse_error_envelope json_loads response.status_code response.content
            (parse_retry_after response)))
    else response_of response (body_of json_loads response.content >>= data_of is_quick_validate)
