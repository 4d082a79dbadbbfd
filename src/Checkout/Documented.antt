-- ===== src/Checkout/Documented.antt =====
-- The errors that reading a payload documents, `ValueError` with its subclasses and `InvalidTag`.
-- No other error leaves the parts that both offline files share.
use tamga_python.Prelude.{
  ◌≡◌, refl, ◌⊎◌, inl, inr, Option-cases, Bool, true, Option, none, some, arith,
}
use tamga_python.Python.Int.{ℤ}
use tamga_python.Python.Str.{Str, Bytes, codes, is_encodable}
use tamga_python.Python.Json.{Json, get, as_dict}
use tamga_python.Python.Exc.{
  Exc, Result, ok, err, guard, is_value_error, Raises, Raises-bind, Raises-guard, unicode_error,
  json_decode_error, invalid_signature, invalid_tag, or_value_error,
}
use tamga_python.Crypto.{
  Cryptography, encode_utf8, derive_license_file_key, derive_machine_file_key, aes_gcm_decrypt,
}
use tamga_python.Checkout.Runtime.{Runtime, IsJsonError, LoadsJson}
use tamga_python.Checkout.Envelope.{json_value, b64decode_strict}
use tamga_python.Checkout.Claims.{
  LicenseFileClaims, FileKind, license_file, machine_file, expired_error, parse_claims, malformed,
  claims_from, enforce_expiry,
}

abbrev pub is_documented : Exc → Bool
is_documented invalid_tag = true
is_documented e = is_value_error e

abbrev pub IsDocumented : Exc → Type 0
IsDocumented e = is_documented e ≡ true

-- A check of the signature may fail besides.
abbrev pub IsVerifyError : Exc → Type 0
IsVerifyError e = (e ≡ invalid_signature) ⊎ IsDocumented e

-- The computation returns, or raises a documented error.
abbrev pub Documented {ℓ} : {A : Type ℓ} → Result A → Type 0
Documented r = Raises IsDocumented r

pub or_value_error-Documented {ℓ} : {A : Type ℓ} (o : Option A) → Documented (or_value_error o)
unfolding or_value_error
or_value_error-Documented none = refl
or_value_error-Documented (some a) = tt

pub b64decode_strict-Documented : (s : Str) → Documented (b64decode_strict s)
unfolding b64decode_strict
b64decode_strict-Documented s = or_value_error-Documented _

module _ {ℓ} {A : Type ℓ} where
  json_value-lem : (r : Result A) → Raises IsJsonError r → Documented (json_value r)
  unfolding json_value
  json_value-lem (ok a) h = tt
  json_value-lem (err json_decode_error) h = refl
  json_value-lem (err unicode_error) h = refl
  json_value-lem (err _) h = ground arith

  loads-lem : (r : Result A) → Raises IsJsonError r → Documented r
  loads-lem (ok a) h = tt
  loads-lem (err e) h = ground arith

module _ (rt : Runtime) (json : LoadsJson rt) where
  pub json_value-Documented : (bytes : Bytes) → Documented (json_value (rt.json_loads bytes))
  json_value-Documented bytes = json_value-lem (rt.json_loads bytes) (json bytes)

  pub json_loads-Documented : (bytes : Bytes) → Documented (rt.json_loads bytes)
  json_loads-Documented bytes = loads-lem (rt.json_loads bytes) (json bytes)

malformed-Documented : (r : Result LicenseFileClaims) → Documented (malformed r)
unfolding malformed
malformed-Documented (ok claims) = tt
malformed-Documented (err e) = refl

pub parse_claims-Documented :
    (repr : Json → Str) (parsed : Json) → Documented (parse_claims repr parsed)
unfolding parse_claims
parse_claims-Documented repr parsed =
    Raises-bind IsDocumented (or_value_error (as_dict parsed)) _ (or_value_error-Documented _)
      λ payload _.
        Raises-bind IsDocumented (or_value_error (get payload (codes "meta"))) _
          (or_value_error-Documented _)
          λ raw _.
            Raises-bind IsDocumented (or_value_error (as_dict raw)) _ (or_value_error-Documented _)
              λ meta _. malformed-Documented (claims_from repr meta)

enforce_expiry-lem : (kind : FileKind) (exp : ℤ) → IsDocumented (expired_error kind exp)
enforce_expiry-lem license_file exp = refl
enforce_expiry-lem machine_file exp = refl

pub enforce_expiry-Documented :
    (kind : FileKind) (claims : LicenseFileClaims) (now : Option ℤ) (clock : ℤ)
    → Documented (enforce_expiry kind claims now clock)
unfolding enforce_expiry
enforce_expiry-Documented kind claims now clock = elim (Option-cases claims.exp) [
  | inl e ↦ rw e tt
  | inr (exp, e) ↦ rw e (Raises-guard IsDocumented _ _ (enforce_expiry-lem kind exp))
]

encode_utf8-Documented : (s : Str) → Documented (encode_utf8 s)
unfolding encode_utf8
encode_utf8-Documented s =
    Raises-bind IsDocumented (guard (is_encodable s) unicode_error) _
      (Raises-guard IsDocumented _ _ refl) λ u _. tt

module _ (c : Cryptography) where
  pub derive_license_file_key-Documented : (s : Str) → Documented (derive_license_file_key c s)
  unfolding derive_license_file_key
  derive_license_file_key-Documented s =
      Raises-bind IsDocumented (encode_utf8 s) _ (encode_utf8-Documented s) λ ikm _. tt

  pub derive_machine_file_key-Documented :
      (s fingerprint : Str) → Documented (derive_machine_file_key c s fingerprint)
  unfolding derive_machine_file_key
  derive_machine_file_key-Documented s fingerprint =
      Raises-bind IsDocumented (encode_utf8 fingerprint) _ (encode_utf8-Documented fingerprint)
        λ info _. Raises-bind IsDocumented (encode_utf8 s) _ (encode_utf8-Documented s) λ ikm _. tt

  pub aes_gcm_decrypt-Documented :
      (key nonce rest : Bytes) → Documented (aes_gcm_decrypt c key nonce rest)
  unfolding aes_gcm_decrypt
  aes_gcm_decrypt-Documented key nonce rest = elim (Option-cases (c.aes_gcm_open key nonce rest)) [
    | inl e ↦ rw (aes_gcm_decrypt, e) refl
    | inr (plaintext, e) ↦ rw (aes_gcm_decrypt, e) tt
  ]
