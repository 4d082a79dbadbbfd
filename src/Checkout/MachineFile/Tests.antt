-- ===== src/Checkout/MachineFile/Tests.antt =====
-- Machine files that verify, plain and encrypted, and the theorems at work on them.
use mathlib.Core.List.{Memᴰ}
use tamga_python.Prelude.{◌≡◌, refl, none, some, [], arith}
use tamga_python.Python.Int.{pos, ◌-ℤ◌}
use tamga_python.Python.Str.{Str, Bytes, codes}
use tamga_python.Python.Json.{null, str, obj, end, index_by, to_int}
use tamga_python.Python.Exc.{ok, err, Raises, ◌>>=◌, value_error}
use tamga_python.Crypto.{ed25519_verify, derive_machine_file_key, aes_gcm_decrypt}
use tamga_python.Models.SigningKey.{is_ed25519, public_key_bytes}
use tamga_python.Models.Machine.{
  MachineResource, not_started, ed25519_sign, rsa_2048_pkcs1_sign, ecdsa_p256_sign,
}
use tamga_python.Checkout.Samples.{
  sample_cryptography-LoadsKeys, sample_cryptography, sample_runtime, sample_enc, sample_public_key,
  sample_signature, sample_loads-LoadsJson, sample_key, sample_key_set,
}
use tamga_python.Checkout.Claims.{LicenseFileClaims, parse_claims, enforce_expiry}
use tamga_python.Checkout.KeySet.{resolve_signing_key, usable_keys, is_usable}
use tamga_python.Checkout.KeySet.Resolve.{Verifies}
use tamga_python.Checkout.MachineFile.{
  MachineFile, VerifiedMachineFile, algorithm, validate_alg, open_payload, verify_with_claims,
  verify_with_key_set, verify_as, decode_payload, interpret, attributes_of,
}
use tamga_python.Checkout.MachineFile.Algorithm.{IsPrefix, IsSuffix, validate_alg_iff}
use tamga_python.Checkout.MachineFile.Sound.{AcceptedAs, verify_machine_iff}
use tamga_python.Checkout.MachineFile.Keyed.{verify_machine_with_key_set_sound}
use tamga_python.Checkout.MachineFile.Contract.{IsMachineError, verify_machine-Documented}
use tamga_python.Checkout.MachineFile.Wire.{joined, open_payload-joined}
use tamga_python.Checkout.Envelope.{b64decode_strict, json_value}
use tamga_python.Checkout.LicenseFile.{missing_data}

abbrev sample_alg : Str
sample_alg = codes "base64+ed25519+v2"

abbrev sample_file : MachineFile
sample_file = record { enc = sample_enc; sig = sample_signature; alg = sample_alg }

abbrev sample_claims : LicenseFileClaims
sample_claims = record { iat = pos 10; jti = codes "j"; kid = codes "k"; exp = some (pos 100) }

abbrev sample_machine : MachineResource
sample_machine = record {
  id = str (codes "1");
  fingerprint = str [];
  name = null;
  ip = null;
  hostname = null;
  platform = null;
  cores = null;
  memory = null;
  disk = null;
  metadata = obj end;
  heartbeat_status = not_started;
}

abbrev sample_verified : VerifiedMachineFile
sample_verified = record { machine = sample_machine; claims = sample_claims; key = sample_key }

verifies :
    verify_with_claims sample_runtime sample_file sample_public_key ed25519_sign none none none
    ≡ ok (sample_machine, sample_claims)
unfolding verify_with_claims verify_as validate_alg ed25519_verify decode_payload b64decode_strict
    interpret json_value missing_data index_by parse_claims to_int enforce_expiry ◌-ℤ◌ attributes_of
verifies = refl

-- Another scheme's suffix is refused before the signature is looked at.
mismatched :
    verify_with_claims sample_runtime sample_file sample_public_key ecdsa_p256_sign none none none
    ≡ err value_error
unfolding verify_with_claims verify_as validate_alg
mismatched = refl

verifies_with_key_set :
    verify_with_key_set sample_runtime sample_file sample_key_set ed25519_sign none none none
    ≡ ok sample_verified
unfolding verify_with_key_set resolve_signing_key usable_keys is_usable is_ed25519 public_key_bytes
    ed25519_verify verify_with_claims verify_as validate_alg decode_payload b64decode_strict
    interpret json_value missing_data index_by parse_claims to_int enforce_expiry ◌-ℤ◌ attributes_of
verifies_with_key_set = refl

valid : validate_alg sample_alg ≡ ok (codes "base64", codes "ed25519")
unfolding validate_alg
valid = refl

validate_alg_iff_example :
    IsPrefix (codes "base64")
    × IsSuffix (codes "ed25519")
    × (sample_alg ≡ algorithm (codes "base64") (codes "ed25519"))
validate_alg_iff_example = (validate_alg_iff sample_alg (codes "base64") (codes "ed25519")).0 valid

verify_machine_iff_example :
    AcceptedAs sample_runtime sample_file sample_public_key none none none ed25519_sign
      sample_machine sample_claims
verify_machine_iff_example =
    (verify_machine_iff sample_runtime sample_file sample_public_key none none none ed25519_sign
        sample_machine sample_claims).0
      verifies

verify_machine_with_key_set_sound_example :
    (ed25519_sign ≡ ed25519_sign)
    × ((bs : Bytes) × Memᴰ sample_key sample_key_set.keys
        × Verifies
            (λ pk. ed25519_verify sample_runtime.cryptography pk sample_enc sample_signature)
            sample_key
            bs
        × (verify_with_claims sample_runtime sample_file bs ed25519_sign none none none
            ≡ ok (sample_machine, sample_claims)))
verify_machine_with_key_set_sound_example =
    verify_machine_with_key_set_sound sample_runtime sample_file none none none sample_key_set
      ed25519_sign sample_verified verifies_with_key_set

verify_machine-Documented_example : Raises IsMachineError (
    verify_with_claims sample_runtime sample_file sample_public_key rsa_2048_pkcs1_sign none none
      none)
verify_machine-Documented_example =
    verify_machine-Documented sample_runtime sample_loads-LoadsJson sample_file none none
      sample_cryptography-LoadsKeys sample_public_key none rsa_2048_pkcs1_sign

abbrev sample_nonce : Bytes
sample_nonce = codes "twelve bytes"

abbrev sample_ciphertext : Bytes
sample_ciphertext = codes "sixteen bytes or more"

open_payload-joined_example :
    open_payload sample_runtime
      (joined sample_nonce sample_ciphertext)
      (codes "key")
      (codes "machine")
    ≡ (derive_machine_file_key sample_cryptography (codes "key") (codes "machine") >>= λ key.
        aes_gcm_decrypt sample_cryptography key sample_nonce sample_ciphertext)
open_payload-joined_example =
    open_payload-joined sample_runtime (codes "key") (codes "machine") sample_nonce
      sample_ciphertext (ground arith) (ground arith) refl (omega arith)
