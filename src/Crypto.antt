-- ===== src/Crypto.antt =====
-- crypto/: the wrappers around the `cryptography` package. The package is a record of operations;
-- an operation returns the outcomes that its documentation names.
pub mod Keys
pub mod Errors
mod Tests
use tamga_python.Prelude.{
  ◌≡◌, refl, ℕ, Bool, true, false, not, ◌&&◌, ◌||◌, Option, none, some, List, [], ◌∷◌, leb, ◌==◌,
  if◌then◌else◌, length,
}
use tamga_python.Python.Str.{Str, Bytes, codes, utf8, is_encodable}
use tamga_python.Python.Exc.{
  Exc, Result, ok, err, ◌>>=◌, ◌>>◌, guard, is_value_error, value_error, unicode_error,
  invalid_signature, invalid_tag,
}

-- The outcome of a signature check: None, InvalidSignature, or ValueError.
pub data Check : Type 0 where
  passed bad_signature bad_value : Check

pub data Curve : Type 0 where
  secp256r1 other_curve : Curve

-- A loaded public key: an RSA key with its size in bits, an elliptic-curve key, or another. The
-- last field stands for the key itself.
pub data PublicKey : Type 0 where
  rsa_key : ℕ → Bytes → PublicKey
  ec_key : Curve → Bytes → PublicKey
  other_key : PublicKey

pub record Cryptography : Type 0 where
  -- Ed25519PublicKey.from_public_bytes, the bytes standing for the key; key.verify(signature, message)
  pub load_ed25519 : Bytes → Result Bytes
  pub ed25519_check : Bytes → Bytes → Bytes → Check
  -- load_pem_public_key, load_der_public_key, EllipticCurvePublicKey.from_encoded_point
  pub load_pem : Bytes → Result PublicKey
  pub load_der : Bytes → Result PublicKey
  pub load_point : Bytes → Result PublicKey
  -- key.verify(signature, message, ...)
  pub pkcs1v15_check : PublicKey → Bytes → Bytes → Check
  pub pss_check : PublicKey → Bytes → Bytes → Check
  pub ecdsa_check : PublicKey → Bytes → Bytes → Check
  -- HKDF(SHA256, 32, salt, info).derive(ikm)
  pub hkdf : Bytes → Bytes → Bytes → Bytes
  -- AESGCM(key).decrypt(nonce, ciphertext_and_tag, None); none is InvalidTag
  pub aes_gcm_open : Bytes → Bytes → Bytes → Option Bytes

unfoldable pub as_result : Check → Result (Unit {0})
as_result passed = ok tt
as_result bad_signature = err invalid_signature
as_result bad_value = err value_error

-- except ValueError: handler
unfoldable pub or_on_value_error {ℓ} : {A : Type ℓ} → Result A → Result A → Result A
or_on_value_error (ok a) handler = ok a
or_on_value_error (err e) handler = if is_value_error e then handler else err e

abbrev pub is_invalid_signature : Exc → Bool
is_invalid_signature invalid_signature = true
is_invalid_signature _ = false

-- return True; except (InvalidSignature, ValueError): return False
unfoldable pub as_verdict : Result (Unit {0}) → Result Bool
as_verdict (ok u) = ok true
as_verdict (err e) = if is_invalid_signature e || is_value_error e then ok false else err e

abbrev pub min_key_size_bits : ℕ
min_key_size_bits = 2048

abbrev pub max_key_size_bits : ℕ
max_key_size_bits = 8192

abbrev pub uncompressed_point_length : ℕ
uncompressed_point_length = 65

abbrev pub machine_file_key_salt : Bytes
machine_file_key_salt = codes "tamga:machine-file-key-v1"

abbrev pub license_file_key_salt : Bytes
license_file_key_salt = codes "tamga:license-file-key-v1"

abbrev pub license_file_key_info : Bytes
license_file_key_info = codes "license-file"

unfoldable pub check_rsa : PublicKey → Result PublicKey
check_rsa (rsa_key bits key) =
    if leb min_key_size_bits bits && leb bits max_key_size_bits
    then ok (rsa_key bits key)
    else err value_error
check_rsa _ = err value_error

unfoldable pub check_ec : PublicKey → Result PublicKey
check_ec (ec_key secp256r1 key) = ok (ec_key secp256r1 key)
check_ec _ = err value_error

unfoldable pub first_byte_is : ℕ → Bytes → Bool
first_byte_is b [] = false
first_byte_is b (x ∷ xs) = x == b

-- s.encode("utf-8")
unfoldable pub encode_utf8 : Str → Result Bytes
unfolding utf8 is_encodable
encode_utf8 s = do guard (is_encodable s) unicode_error; ok (utf8 s)

module _ (c : Cryptography) where
  -- `verify` of crypto/ed25519.py
  unfoldable pub ed25519_verify : Bytes → Bytes → Bytes → Result Bool
  unfolding as_verdict as_result
  ed25519_verify public_key message signature =
      as_verdict
        (do key ← c.load_ed25519 public_key; as_result (c.ed25519_check key message signature))

  unfoldable pub load_rsa_public_key : Bytes → Result PublicKey
  unfolding check_rsa or_on_value_error
  load_rsa_public_key bytes = do
    key ← or_on_value_error (c.load_pem bytes) (c.load_der bytes)
    check_rsa key

  unfoldable pub verify_pkcs1v15 : Bytes → Bytes → Bytes → Result Bool
  unfolding as_verdict as_result
  verify_pkcs1v15 public_key message signature =
      as_verdict (do
        key ← load_rsa_public_key public_key
        as_result (c.pkcs1v15_check key message signature))

  unfoldable pub verify_pss : Bytes → Bytes → Bytes → Result Bool
  unfolding as_verdict as_result
  verify_pss public_key message signature =
      as_verdict
        (do key ← load_rsa_public_key public_key; as_result (c.pss_check key message signature))

  -- a raw point is on P-256 by construction, a loaded key is checked
  unfoldable pub load_ec_public_key : Bytes → Result PublicKey
  unfolding check_ec first_byte_is or_on_value_error
  load_ec_public_key bytes =
      if length bytes == uncompressed_point_length && first_byte_is 4 bytes
      then c.load_point bytes
      else (do key ← or_on_value_error (c.load_pem bytes) (c.load_der bytes); check_ec key)

  unfoldable pub verify_p256 : Bytes → Bytes → Bytes → Result Bool
  unfolding as_verdict as_result
  verify_p256 public_key message signature =
      as_verdict
        (do key ← load_ec_public_key public_key; as_result (c.ecdsa_check key message signature))

  unfoldable pub derive_machine_file_key : Str → Str → Result Bytes
  unfolding encode_utf8
  derive_machine_file_key license_key fingerprint = do
    info ← encode_utf8 fingerprint
    ikm ← encode_utf8 license_key
    ok (c.hkdf machine_file_key_salt ikm info)

  unfoldable pub derive_license_file_key : Str → Result Bytes
  unfolding encode_utf8
  derive_license_file_key license_key = do
    ikm ← encode_utf8 license_key
    ok (c.hkdf license_file_key_salt ikm license_file_key_info)

  -- `decrypt` of crypto/aes_gcm.py
  unfoldable pub aes_gcm_decrypt : Bytes → Bytes → Bytes → Result Bytes
  aes_gcm_decrypt key nonce ciphertext_and_tag =
      elim (c.aes_gcm_open key nonce ciphertext_and_tag) [
        | none ↦ err invalid_tag
        | some plaintext ↦ ok plaintext
      ]
