-- ===== src/Checkout/LicenseFile/Tests.antt =====
-- A license file that verifies, and the theorems at work on it.
use mathlib.Core.List.{Memᴰ}
use tamga_python.Prelude.{◌≡◌, refl, true, none, some}
use tamga_python.Python.Int.{pos, ◌-ℤ◌}
use tamga_python.Python.Str.{Bytes, codes, str_eq, is_ascii}
use tamga_python.Python.Json.{str, end, index_by, to_int}
use tamga_python.Python.Exc.{ok, err, Raises, license_file_expired}
use tamga_python.Crypto.{ed25519_verify}
use tamga_python.Models.SigningKey.{is_ed25519, public_key_bytes}
use tamga_python.Checkout.Samples.{
  sample_cryptography-LoadsKeys, sample_runtime, sample_enc, sample_public_key, sample_signature,
  sample_loads-LoadsJson, sample_key, sample_key_set,
}
use tamga_python.Checkout.Claims.{LicenseFileClaims, parse_claims, enforce_expiry}
use tamga_python.Checkout.KeySet.{resolve_signing_key, usable_keys, is_usable}
use tamga_python.Checkout.KeySet.Resolve.{Verifies}
use tamga_python.Checkout.LicenseFile.{
  LicenseFile, LicenseResource, VerifiedLicenseFile, alg_plain, verify_with_claims,
  verify_with_key_set, interpret, decode_payload, missing_data, license_resource_from,
}
use tamga_python.Checkout.LicenseFile.Sound.{
  Holds, verify_with_claims_iff, verify_with_key_set_sound,
}
use tamga_python.Checkout.LicenseFile.Contract.{IsLicenseError, verify_with_claims-Documented}
use tamga_python.Checkout.Envelope.{b64decode_strict, json_value}

abbrev sample_file : LicenseFile
sample_file = record { enc = sample_enc; sig = sample_signature; alg = alg_plain; expiry = none }

abbrev sample_claims : LicenseFileClaims
sample_claims = record { iat = pos 10; jti = codes "j"; kid = codes "k"; exp = some (pos 100) }

abbrev sample_license : LicenseResource
sample_license = record {
  id = str (codes "1");
  type = str (codes "licenses");
  attributes = end;
  relationships = end;
}

abbrev sample_verified : VerifiedLicenseFile
sample_verified = record { license = sample_license; claims = sample_claims; key = sample_key }

verifies :
    verify_with_claims sample_runtime sample_file sample_public_key none none
    ≡ ok (sample_license, sample_claims)
unfolding verify_with_claims ed25519_verify str_eq interpret decode_payload b64decode_strict
    json_value missing_data index_by parse_claims to_int enforce_expiry ◌-ℤ◌ license_resource_from
verifies = refl

expires :
    verify_with_claims sample_runtime sample_file sample_public_key none (some (pos 161))
    ≡ err (license_file_expired (pos 100))
unfolding verify_with_claims ed25519_verify str_eq interpret decode_payload b64decode_strict
    json_value missing_data index_by parse_claims to_int enforce_expiry ◌-ℤ◌
expires = refl

verifies_with_key_set :
    verify_with_key_set sample_runtime sample_file sample_key_set none none ≡ ok sample_verified
unfolding verify_with_key_set resolve_signing_key usable_keys is_usable is_ed25519 public_key_bytes
    ed25519_verify verify_with_claims interpret decode_payload b64decode_strict json_value
    missing_data index_by parse_claims to_int enforce_expiry ◌-ℤ◌ license_resource_from str_eq
verifies_with_key_set = refl

verify_with_claims_iff_example :
    (is_ascii sample_enc ≡ true)
    × (ed25519_verify sample_runtime.cryptography sample_public_key sample_enc sample_signature
        ≡ ok true)
    × Holds sample_runtime sample_file none none sample_license sample_claims
verify_with_claims_iff_example =
    (verify_with_claims_iff sample_runtime sample_file none none sample_public_key sample_license
        sample_claims).0
      verifies

verify_with_key_set_sound_example :
    (bs : Bytes) × Memᴰ sample_key sample_key_set.keys
    × Verifies
        (λ pk. ed25519_verify sample_runtime.cryptography pk sample_enc sample_signature)
        sample_key
        bs
    × (verify_with_claims sample_runtime sample_file bs none none
        ≡ ok (sample_license, sample_claims))
verify_with_key_set_sound_example =
    verify_with_key_set_sound sample_runtime sample_file none none sample_key_set sample_verified
      verifies_with_key_set

verify_with_claims-Documented_example :
    Raises IsLicenseError
      (verify_with_claims sample_runtime sample_file sample_public_key none none)
verify_with_claims-Documented_example =
    verify_with_claims-Documented sample_runtime sample_loads-LoadsJson sample_file none
      sample_cryptography-LoadsKeys sample_public_key none
