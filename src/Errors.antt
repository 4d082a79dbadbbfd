-- ===== src/Errors.antt =====
-- errors.py: the exceptions of the API and the dispatch of an error envelope to one of them.
pub mod Envelope
pub mod Total
mod Tests
use tamga_python.Prelude.{
  ◌≡◌, refl, ℕ, Bool, true, false, not, Option, none, some, List, [], ◌∷◌, ◌==◌, if◌then◌else◌,
}
use tamga_python.Python.Int.{ℤ}
use tamga_python.Python.Str.{Str, Bytes, codes, str_eq}
use tamga_python.Python.Json.{
  Json, null, bool, int, float, str, arr, obj, Items, nil, cons, Fields, end, get, get_or,
  is_truthy,
}
use tamga_python.Python.Exc.{
  Exc, Result, ok, err, ◌>>=◌, ◌>>◌, json_decode_error, attribute_error, index_error, key_error,
  type_error,
}
use tamga_python.Models.Validation.{ValidationCode}

-- The classes below TamgaError: those that a response is turned into, and `artifact_download`, which
-- the client raises itself.
pub data ErrorClass : Type 0 where
  not_found unauthorized forbidden internal_server : ErrorClass
  key_taken fingerprint_taken pid_taken : ErrorClass
  check_in_not_required ttl_invalid presign_ttl_invalid storage_unavailable : ErrorClass
  license_not_encrypted license_key_missing scheme_not_supported : ErrorClass
  signing_key_missing secret_key_missing dataset_invalid : ErrorClass
  machine_limit_exceeded core_limit_exceeded memory_limit_exceeded disk_limit_exceeded : ErrorClass
  too_many_processes meter_limit_exceeded : ErrorClass
  license_suspended license_expired license_not_allowed : ErrorClass
  rate_limited artifact_download unknown : ErrorClass

-- What the server sent is kept as it is: `code`, `detail` and `pointer` may be any JSON value.
pub record TamgaError : Type 0 where
  pub class : ErrorClass
  pub status : ℕ
  pub code : Json
  pub detail : Json
  pub pointer : Json
  pub meta : Option Fields
  pub retry_after : Option ℤ

-- MachineOverLimitError, without its text
pub record MachineOverLimitError : Type 0 where
  pub status : ℕ
  pub code : Json
  pub validation_code : ValidationCode
  pub rolled_back : Bool
  pub pointer : Json
  pub meta : Option Fields

-- _CODE_TO_EXCEPTION
abbrev pub code_to_exception : List (Str × ErrorClass)
code_to_exception =
    (codes "NOT_FOUND", not_found)
    ∷ (codes "UNAUTHORIZED", unauthorized)
    ∷ (codes "FORBIDDEN", forbidden)
    ∷ (codes "INTERNAL_SERVER_ERROR", internal_server)
    ∷ (codes "KEY_TAKEN", key_taken)
    ∷ (codes "FINGERPRINT_TAKEN", fingerprint_taken)
    ∷ (codes "PID_TAKEN", pid_taken)
    ∷ (codes "CHECK_IN_NOT_REQUIRED", check_in_not_required)
    ∷ (codes "TTL_INVALID", ttl_invalid)
    ∷ (codes "PRESIGN_TTL_INVALID", presign_ttl_invalid)
    ∷ (codes "STORAGE_UNAVAILABLE", storage_unavailable)
    ∷ (codes "LICENSE_NOT_ENCRYPTED", license_not_encrypted)
    ∷ (codes "LICENSE_KEY_MISSING", license_key_missing)
    ∷ (codes "SCHEME_NOT_SUPPORTED", scheme_not_supported)
    ∷ (codes "SIGNING_KEY_MISSING", signing_key_missing)
    ∷ (codes "SECRET_KEY_MISSING", secret_key_missing)
    ∷ (codes "DATASET_INVALID", dataset_invalid)
    ∷ (codes "MACHINE_LIMIT_EXCEEDED", machine_limit_exceeded)
    ∷ (codes "CORE_LIMIT_EXCEEDED", core_limit_exceeded)
    ∷ (codes "MEMORY_LIMIT_EXCEEDED", memory_limit_exceeded)
    ∷ (codes "DISK_LIMIT_EXCEEDED", disk_limit_exceeded)
    ∷ (codes "TOO_MANY_PROCESSES", too_many_processes)
    ∷ (codes "METER_LIMIT_EXCEEDED", meter_limit_exceeded)
    ∷ (codes "LICENSE_SUSPENDED", license_suspended)
    ∷ (codes "LICENSE_EXPIRED", license_expired)
    ∷ (codes "LICENSE_NOT_ALLOWED", license_not_allowed)
    ∷ []

-- table.get(code, default), on a table of texts
unfoldable pub lookup {ℓ} : {A : Type ℓ} → List (Str × A) → Str → A → A
lookup [] code default = default
lookup ((k, v) ∷ table) code default =
    let rest = lookup table code default in if str_eq k code then v else rest

-- _CODE_TO_EXCEPTION.get(code, UnknownTamgaError); a list or an object cannot be a key
pub class_of : Json → Result ErrorClass
unfolding lookup
class_of (str s) = ok (lookup code_to_exception s unknown)
class_of (arr items) = err type_error
class_of (obj fields) = err type_error
class_of v = ok unknown

-- errors[0] of a truthy value
unfoldable pub first_of : Json → Result Json
first_of (arr (cons v items)) = ok v
first_of (arr nil) = err index_error
first_of (str (c ∷ s)) = ok (str (c ∷ []))
first_of (str []) = err index_error
first_of (obj fields) = err key_error
first_of v = err type_error

-- v.get(...), which only an object has
unfoldable pub as_object : Json → Result Fields
as_object (obj fields) = ok fields
as_object v = err attribute_error

-- v or {}
unfoldable pub or_empty : Json → Json
unfolding is_truthy
or_empty v = if is_truthy v then v else obj end

-- except (json.JSONDecodeError, AttributeError, IndexError): first = {}
unfoldable pub or_no_error : Result Json → Result Json
or_no_error (err json_decode_error) = ok (obj end)
or_no_error (err attribute_error) = ok (obj end)
or_no_error (err index_error) = ok (obj end)
or_no_error r = r

-- the body of the `try`
unfoldable pub first_error : (Bytes → Result Json) → Bytes → Result Json
unfolding first_of as_object is_truthy get_or
first_error json_loads body = do
  parsed ← json_loads body
  fields ← as_object parsed
  let errors = get_or fields (codes "errors") null
  if is_truthy errors then first_of errors else ok (obj end)

-- raw_meta if isinstance(raw_meta, dict) else None
unfoldable pub meta_of : Json → Option Fields
meta_of (obj fields) = some fields
meta_of v = none

-- the class and the wait that go with a status and a code
unfoldable pub dispatch : ℕ → Json → Option ℤ → Result (ErrorClass × Option ℤ)
unfolding class_of
dispatch status code retry_after =
    if status == 429
    then ok (rate_limited, retry_after)
    else (do class ← class_of code; ok (class, none))

-- what follows the `try`, on the first error object
unfoldable pub error_of : ℕ → Option ℤ → Fields → Result TamgaError
unfolding as_object or_empty get_or meta_of dispatch
error_of status retry_after first = do
  source ← as_object (or_empty (get_or first (codes "source") null))
  let code = get_or first (codes "code") (str (codes "UNKNOWN"))
  (class, wait) ← dispatch status code retry_after
  ok (record {
    class = class;
    status = status;
    code = code;
    detail = get_or first (codes "detail") (str []);
    pointer = get_or source (codes "pointer") null;
    meta = meta_of (get_or first (codes "meta") null);
    retry_after = wait;
  })

unfoldable pub parse_error_envelope :
    (Bytes → Result Json) → ℕ → Bytes → Option ℤ → Result TamgaError
unfolding first_error or_no_error as_object error_of
parse_error_envelope json_loads status body retry_after = do
  raw_first ← or_no_error (first_error json_loads body)
  first ← as_object raw_first
  error_of status retry_after first

-- MeterLimitExceededError.entitlement_id, where `parse_uuid` is Python's `UUID`, written back
unfoldable pub entitlement_id : (Str → Option Str) → TamgaError → Option Str
unfolding get
entitlement_id parse_uuid e = elim (e.meta) [
  | none ↦ none
  | some fields ↦ elim (get fields (codes "entitlement_id")) [
    | some (str raw) ↦ parse_uuid raw
    | _ ↦ none
  ]
]
