-- ===== src/Checkout/LicenseFile.antt =====
-- checkout/license_file.py: parsing and verification of `.lic` files.
pub mod Sound
pub mod Contract
mod Tests
use tamga_python.Prelude.{
  ◌≡◌, refl, ℕ, ◌+◌, Bool, true, false, not, ◌&&◌, ◌||◌, Option, none, some, List, [], ◌∷◌, ltb,
  if◌then◌else◌, length, take, drop,
}
use tamga_python.Python.Int.{ℤ, ltb_ℤ}
use tamga_python.Python.Str.{Str, Bytes, codes, str_eq, is_ascii}
use tamga_python.Python.Json.{Json, null, Fields, end, get, as_dict, subscript, index_by}
use tamga_python.Python.Exc.{
  Exc, Result, ok, err, ◌>>=◌, ◌>>◌, guard, is_value_error, value_error, unicode_error,
  invalid_signature, invalid_tag, key_error, type_error, or_value_error,
}
use tamga_python.Crypto.{ed25519_verify, derive_license_file_key, aes_gcm_decrypt}
use tamga_python.Models.Reader.{replace_z}
use tamga_python.Models.SigningKey.{SigningKey}
use tamga_python.Checkout.Runtime.{Runtime}
use tamga_python.Checkout.Envelope.{
  Envelope, json_value, parse_certificate_envelope, b64decode_strict,
}
use tamga_python.Checkout.KeySet.{SigningKeySet, resolve_signing_key}
use tamga_python.Checkout.Claims.{LicenseFileClaims, license_file, parse_claims, enforce_expiry}

abbrev pub pem_header : Str
pem_header = codes "-----BEGIN LICENSE FILE-----"

abbrev pub pem_footer : Str
pem_footer = codes "-----END LICENSE FILE-----"

abbrev pub alg_plain : Str
alg_plain = codes "base64+ed25519+v2"

abbrev pub alg_encrypted : Str
alg_encrypted = codes "aes-256-gcm+ed25519+v2"

abbrev pub nonce_length : ℕ
nonce_length = 12

abbrev pub gcm_tag_length : ℕ
gcm_tag_length = 16

pub record LicenseFile : Type 0 where
  pub enc : Str
  pub sig : Bytes
  pub alg : Str
  pub expiry : Option Str

-- Of the resource's members, the id and the type are kept as the file has them.
pub record LicenseResource : Type 0 where
  pub id : Json
  pub type : Json
  pub attributes : Fields
  pub relationships : Fields

pub record VerifiedLicenseFile : Type 0 where
  pub license : LicenseResource
  pub claims : LicenseFileClaims
  pub key : SigningKey

is_valid_algorithm : Str → Bool
is_valid_algorithm alg = str_eq alg alg_plain || str_eq alg alg_encrypted

-- LicenseFile.parse
pub parse : Runtime → Str → Result LicenseFile
unfolding is_valid_algorithm
parse rt certificate = do
  envelope ← parse_certificate_envelope rt.json_loads certificate pem_header pem_footer
  guard (is_valid_algorithm envelope.alg) value_error
  ok (record { enc = envelope.enc; sig = envelope.sig; alg = envelope.alg; expiry = none })

-- s.encode("ascii")
unfoldable pub encode_ascii : Str → Result Bytes
unfolding is_ascii
encode_ascii s = do guard (is_ascii s) unicode_error; ok s

-- the nonce, and the ciphertext with its tag, of an encrypted payload
unfoldable pub decrypt : Runtime → Bytes → Option Str → Result Bytes
decrypt rt payload none = err value_error
decrypt rt payload (some license_key) = do
  guard (not (ltb (length payload) (nonce_length + gcm_tag_length))) value_error
  key ← derive_license_file_key rt.cryptography license_key
  aes_gcm_decrypt rt.cryptography key (take nonce_length payload) (drop nonce_length payload)

pub decode_payload : Runtime → LicenseFile → Option Str → Result Bytes
unfolding decrypt
decode_payload rt file license_key = do
  payload ← b64decode_strict file.enc
  if str_eq file.alg alg_encrypted then decrypt rt payload license_key else ok payload

-- except (KeyError, TypeError): raise ValueError
unfoldable pub missing_data : Result Json → Result Json
missing_data (err key_error) = err value_error
missing_data (err type_error) = err value_error
missing_data r = r

-- data.get(key), an empty object for None
unfoldable pub member_or_empty : Option Json → Result Fields
member_or_empty none = ok end
member_or_empty (some null) = ok end
member_or_empty (some v) = or_value_error (as_dict v)

pub license_resource_from : Json → Result LicenseResource
unfolding member_or_empty or_value_error as_dict
license_resource_from data_member = do
  fields ← or_value_error (as_dict data_member)
  id ← or_value_error (get fields (codes "id"))
  type ← or_value_error (get fields (codes "type"))
  attributes ← member_or_empty (get fields (codes "attributes"))
  relationships ← member_or_empty (get fields (codes "relationships"))
  ok (record { id = id; type = type; attributes = attributes; relationships = relationships })

-- what follows the signature check in `_verify`
pub interpret :
    Runtime → LicenseFile → Option Str → Option ℤ → Result (LicenseResource × LicenseFileClaims)
interpret rt file license_key now = do
  plaintext ← decode_payload rt file license_key
  parsed ← json_value (rt.json_loads plaintext)
  data_member ← missing_data (index_by parsed (codes "data"))
  claims ← parse_claims rt.repr parsed
  enforce_expiry license_file claims now rt.clock
  license ← license_resource_from data_member
  ok (license, claims)

-- LicenseFile._verify, which `verify_with_claims` returns whole
pub verify_with_claims :
    Runtime
    → LicenseFile
    → Bytes
    → Option Str
    → Option ℤ
    → Result (LicenseResource × LicenseFileClaims)
unfolding encode_ascii
verify_with_claims rt file public_key license_key now = do
  message_bytes ← encode_ascii file.enc
  verified ← ed25519_verify rt.cryptography public_key message_bytes file.sig
  guard verified invalid_signature
  interpret rt file license_key now

-- LicenseFile.verify
pub verify : Runtime → LicenseFile → Bytes → Option Str → Option ℤ → Result LicenseResource
verify rt file public_key license_key now = do
  (license, claims) ← verify_with_claims rt file public_key license_key now
  ok license

abbrev pub is_invalid_tag : Exc → Bool
is_invalid_tag invalid_tag = true
is_invalid_tag _ = false

-- except (ValueError, InvalidTag): return None
unfoldable pub readable : Result LicenseFileClaims → Result (Option Str)
readable (ok claims) = ok (some claims.kid)
readable (err e) = if is_value_error e || is_invalid_tag e then ok none else err e

pub unverified_kid : Runtime → LicenseFile → Option Str → Unit {0} → Result (Option Str)
unfolding readable
unverified_kid rt file license_key u = readable (do
  plaintext ← decode_payload rt file license_key
  parsed ← rt.json_loads plaintext
  parse_claims rt.repr parsed)

-- LicenseFile.verify_with_key_set
pub verify_with_key_set :
    Runtime → LicenseFile → SigningKeySet → Option Str → Option ℤ → Result VerifiedLicenseFile
unfolding encode_ascii
verify_with_key_set rt file key_set license_key now = do
  message_bytes ← encode_ascii file.enc
  (key, public_key_bytes) ←
      resolve_signing_key rt.sha256 key_set
        (λ public_key. ed25519_verify rt.cryptography public_key message_bytes file.sig)
        (unverified_kid rt file license_key)
  (license, claims) ← verify_with_claims rt file public_key_bytes license_key now
  ok (record { license = license; claims = claims; key = key })

-- A `datetime`, in microseconds of its own clock, with a time zone or without.
pub data Moment : Type 0 where
  aware naive : ℤ → Moment

-- A reference without a time zone is read as UTC.
abbrev pub in_utc : ℤ → Option Moment → ℤ
in_utc clock none = clock
in_utc clock (some (aware t)) = t
in_utc clock (some (naive t)) = t

-- Only an expiry with a time zone can be compared with the reference.
unfoldable pub is_before : Moment → ℤ → Result Bool
is_before (aware t) reference = ok (ltb_ℤ t reference)
is_before (naive t) reference = err type_error

-- LicenseFile.is_expired, where `fromisoformat` is `none` where Python raises ValueError
pub is_expired : (Str → Option Moment) → LicenseFile → Option Moment → ℤ → Result Bool
unfolding or_value_error replace_z is_before
is_expired fromisoformat file as_of clock = elim (file.expiry) [
  | none ↦ ok false
  | some expiry ↦ do
    t ← or_value_error (fromisoformat (replace_z expiry))
    is_before t (in_utc clock as_of)
]
