-- ===== src/Checkout/MachineFile.antt =====
-- checkout/machine_file.py: parsing and verification of machine files, signed by any scheme of a
-- license.
pub mod Algorithm
pub mod Payload
pub mod Sound
pub mod Keyed
pub mod Verifiers
pub mod Contract
pub mod Wire
mod Tests
use tamga_python.Prelude.{
  ◌≡◌, refl, ℕ, Bool, true, false, not, ◌&&◌, ◌||◌, Option, none, some, List, [], ◌∷◌, ◌++◌, map,
  ltb, ◌==◌, any, if◌then◌else◌, length,
}
use tamga_python.Python.Int.{ℤ}
use tamga_python.Python.Str.{Str, Bytes, codes, str_eq, partition, rpartition, has_char}
use tamga_python.Python.Json.{
  Json, null, str, obj, Fields, end, get, get_or, is_truthy, as_dict, index_by,
}
use tamga_python.Python.Exc.{
  Exc, Result, ok, err, ◌>>=◌, ◌>>◌, guard, value_error, invalid_signature, scheme_not_supported,
  signing_key_not_applicable, or_value_error,
}
use tamga_python.Crypto.{
  Cryptography, ed25519_verify, verify_pkcs1v15, verify_pss, verify_p256, derive_machine_file_key,
  aes_gcm_decrypt,
}
use tamga_python.Models.SigningKey.{SigningKey}
use tamga_python.Models.Machine.{
  LicenseScheme, ed25519_sign, rsa_2048_pkcs1_sign, rsa_2048_pkcs1_pss_sign, ecdsa_p256_sign,
  rsa_2048_jwt_rs256, scheme_value, MachineResource, heartbeat_status_from,
}
use tamga_python.Checkout.Runtime.{Runtime}
use tamga_python.Checkout.Envelope.{json_value, parse_certificate_envelope, b64decode_strict}
use tamga_python.Checkout.KeySet.{SigningKeySet, resolve_signing_key}
use tamga_python.Checkout.Claims.{LicenseFileClaims, machine_file, parse_claims, enforce_expiry}
use tamga_python.Checkout.LicenseFile.{encode_ascii, missing_data, readable}

abbrev pub pem_header : Str
pem_header = codes "-----BEGIN MACHINE FILE-----"

abbrev pub pem_footer : Str
pem_footer = codes "-----END MACHINE FILE-----"

abbrev pub enc_prefix_plain : Str
enc_prefix_plain = codes "base64"

abbrev pub enc_prefix_encrypted : Str
enc_prefix_encrypted = codes "aes-256-gcm"

abbrev pub alg_v2_marker : Str
alg_v2_marker = codes "v2"

-- _SCHEME_TO_ALG_SUFFIX
abbrev pub alg_suffix_of : LicenseScheme → Option Str
alg_suffix_of ed25519_sign = some (codes "ed25519")
alg_suffix_of rsa_2048_pkcs1_sign = some (codes "rsa-sha256")
alg_suffix_of rsa_2048_pkcs1_pss_sign = some (codes "rsa-pss-sha256")
alg_suffix_of ecdsa_p256_sign = some (codes "ecdsa-p256")
alg_suffix_of rsa_2048_jwt_rs256 = none

abbrev pub enc_prefixes : List Str
enc_prefixes = enc_prefix_plain ∷ enc_prefix_encrypted ∷ []

abbrev pub signing_suffixes : List Str
signing_suffixes =
    codes "ed25519" ∷ codes "rsa-sha256" ∷ codes "rsa-pss-sha256" ∷ codes "ecdsa-p256" ∷ []

-- f"{prefix}+{suffix}+v2"
abbrev pub algorithm : Str → Str → Str
algorithm prefix suffix = prefix ++ (b'+' ∷ suffix ++ (b'+' ∷ alg_v2_marker))

abbrev pub valid_algorithms : List Str
valid_algorithms =
    map (algorithm enc_prefix_plain) signing_suffixes
    ++ map (algorithm enc_prefix_encrypted) signing_suffixes

-- the encoding prefix and the signing suffix of an `alg`
pub validate_alg : Str → Result (Str × Str)
unfolding partition rpartition str_eq
validate_alg alg = do
  let first = partition b'+' alg
  let last = rpartition b'+' first.after
  guard (first.found && last.found && str_eq last.after alg_v2_marker) value_error
  guard (any (str_eq alg) valid_algorithms) value_error
  ok (first.before, last.before)

pub record MachineFile : Type 0 where
  pub enc : Str
  pub sig : Bytes
  pub alg : Str

pub record VerifiedMachineFile : Type 0 where
  pub machine : MachineResource
  pub claims : LicenseFileClaims
  pub key : SigningKey

-- MachineFile.parse
pub parse : Runtime → Str → Result MachineFile
unfolding validate_alg
parse rt certificate = do
  envelope ← parse_certificate_envelope rt.json_loads certificate pem_header pem_footer
  parts ← validate_alg envelope.alg
  ok (record { enc = envelope.enc; sig = envelope.sig; alg = envelope.alg })

-- _VERIFIERS
abbrev pub verifier_of : Cryptography → LicenseScheme → Option (Bytes → Bytes → Bytes → Result Bool)
verifier_of c ed25519_sign = some (ed25519_verify c)
verifier_of c rsa_2048_pkcs1_sign = some (verify_pkcs1v15 c)
verifier_of c rsa_2048_pkcs1_pss_sign = some (verify_pss c)
verifier_of c ecdsa_p256_sign = some (verify_p256 c)
verifier_of c rsa_2048_jwt_rs256 = none

abbrev pub is_rejected : LicenseScheme → Bool
is_rejected rsa_2048_jwt_rs256 = true
is_rejected _ = false

-- `_decrypt`, with both of its optional arguments given
unfoldable pub open_payload : Runtime → Str → Str → Str → Result Bytes
unfolding partition has_char
open_payload rt enc license_key fingerprint = do
  let parts = partition b'.' enc
  guard (parts.found && not (has_char b'.' parts.after)) value_error
  nonce ← b64decode_strict parts.before
  ciphertext_and_tag ← b64decode_strict parts.after
  guard (length nonce == 12) value_error
  guard (not (ltb (length ciphertext_and_tag) 16)) value_error
  key ← derive_machine_file_key rt.cryptography license_key fingerprint
  aes_gcm_decrypt rt.cryptography key nonce ciphertext_and_tag

unfoldable pub decrypt : Runtime → Str → Option Str → Option Str → Result Bytes
unfolding open_payload
decrypt rt enc (some license_key) (some fingerprint) = open_payload rt enc license_key fingerprint
decrypt rt enc _ _ = err value_error

pub decode_payload : Runtime → MachineFile → Str → Option Str → Option Str → Result Bytes
unfolding decrypt str_eq
decode_payload rt file enc_prefix license_key fingerprint =
    if str_eq enc_prefix enc_prefix_encrypted
    then decrypt rt file.enc license_key fingerprint
    else b64decode_strict file.enc

-- data.get("attributes"), an empty object for None
unfoldable pub attributes_of : Option Json → Result Fields
attributes_of none = ok end
attributes_of (some null) = ok end
attributes_of (some v) = or_value_error (as_dict v)

-- attributes.get("metadata", {}) or {}
or_empty_object : Json → Json
unfolding is_truthy
or_empty_object v = if is_truthy v then v else obj end

unfoldable pub machine_from : Json → Fields → MachineResource
unfolding or_empty_object get_or heartbeat_status_from
machine_from id attributes = record {
  id = id;
  fingerprint = get_or attributes (codes "fingerprint") (str []);
  name = get_or attributes (codes "name") null;
  ip = get_or attributes (codes "ip") null;
  hostname = get_or attributes (codes "hostname") null;
  platform = get_or attributes (codes "platform") null;
  cores = get_or attributes (codes "cores") null;
  memory = get_or attributes (codes "memory") null;
  disk = get_or attributes (codes "disk") null;
  metadata = or_empty_object (get_or attributes (codes "metadata") (obj end));
  heartbeat_status =
      heartbeat_status_from
        (get_or attributes (codes "heartbeat_status") (str (codes "NOT_STARTED")));
}

-- what `_verify` does with the decrypted payload
pub interpret : Runtime → Bytes → Option ℤ → Result (MachineResource × LicenseFileClaims)
unfolding machine_from or_value_error as_dict get
interpret rt plaintext now = do
  parsed ← json_value (rt.json_loads plaintext)
  data_member ← missing_data (index_by parsed (codes "data"))
  fields ← or_value_error (as_dict data_member)
  claims ← parse_claims rt.repr parsed
  enforce_expiry machine_file claims now rt.clock
  id ← or_value_error (get fields (codes "id"))
  attributes ← attributes_of (get fields (codes "attributes"))
  ok (machine_from id attributes, claims)

-- the rest of `_verify`, under the verifier and the suffix that belong to the scheme
pub verify_as :
    Runtime
    → MachineFile
    → (Bytes → Bytes → Bytes → Result Bool)
    → Str
    → Bytes
    → Option Str
    → Option Str
    → Option ℤ
    → Result (MachineResource × LicenseFileClaims)
unfolding encode_ascii str_eq
verify_as rt file verifier suffix public_key license_key fingerprint now = do
  (enc_prefix, alg_suffix) ← validate_alg file.alg
  guard (str_eq alg_suffix suffix) value_error
  message_bytes ← encode_ascii file.enc
  verified ← verifier public_key message_bytes file.sig
  guard verified invalid_signature
  plaintext ← decode_payload rt file enc_prefix license_key fingerprint
  interpret rt plaintext now

-- MachineFile._verify, which `verify_with_claims` returns whole. Each scheme with a verifier has a
-- suffix.
pub verify_with_claims :
    Runtime
    → MachineFile
    → Bytes
    → LicenseScheme
    → Option Str
    → Option Str
    → Option ℤ
    → Result (MachineResource × LicenseFileClaims)
verify_with_claims rt file public_key scheme license_key fingerprint now = do
  guard (not (is_rejected scheme)) scheme_not_supported
  elim (verifier_of rt.cryptography scheme) [
    | none ↦ err scheme_not_supported
    | some verifier ↦ elim (alg_suffix_of scheme) [
      | none ↦ err Exc.key_error
      | some suffix ↦ verify_as rt file verifier suffix public_key license_key fingerprint now
    ]
  ]

-- MachineFile.verify
pub verify :
    Runtime
    → MachineFile
    → Bytes
    → LicenseScheme
    → Option Str
    → Option Str
    → Option ℤ
    → Result MachineResource
verify rt file public_key scheme license_key fingerprint now = do
  (machine, claims) ← verify_with_claims rt file public_key scheme license_key fingerprint now
  ok machine

pub unverified_kid :
    Runtime → MachineFile → Option Str → Option Str → Unit {0} → Result (Option Str)
unfolding readable
unverified_kid rt file license_key fingerprint u = readable (do
  (enc_prefix, alg_suffix) ← validate_alg file.alg
  plaintext ← decode_payload rt file enc_prefix license_key fingerprint
  parsed ← rt.json_loads plaintext
  parse_claims rt.repr parsed)

abbrev pub is_ed25519_scheme : LicenseScheme → Bool
is_ed25519_scheme ed25519_sign = true
is_ed25519_scheme _ = false

-- MachineFile.verify_with_key_set
pub verify_with_key_set :
    Runtime
    → MachineFile
    → SigningKeySet
    → LicenseScheme
    → Option Str
    → Option Str
    → Option ℤ
    → Result VerifiedMachineFile
unfolding encode_ascii
verify_with_key_set rt file key_set scheme license_key fingerprint now = do
  guard (not (is_rejected scheme)) scheme_not_supported
  guard (is_ed25519_scheme scheme) (signing_key_not_applicable (scheme_value scheme))
  message_bytes ← encode_ascii file.enc
  (key, public_key_bytes) ←
      resolve_signing_key rt.sha256 key_set
        (λ public_key. ed25519_verify rt.cryptography public_key message_bytes file.sig)
        (unverified_kid rt file license_key fingerprint)
  (machine, claims) ← verify_with_claims rt file public_key_bytes scheme license_key fingerprint now
  ok (record { machine = machine; claims = claims; key = key })
