-- ===== src/Checkout/MachineFile/Contract.antt =====
-- The errors that verification of a machine file can raise.
use tamga_python.Prelude.{
  ◌≡◌, refl, ◌⊎◌, inl, inr, not, ◌&&◌, Option, none, some, arith, ltb, length, ◌==◌, Bool-cases,
  any,
}
use tamga_python.Python.Int.{ℤ}
use tamga_python.Python.Str.{Str, Bytes, codes, str_eq, is_ascii, partition, rpartition, has_char}
use tamga_python.Python.Json.{Json, null, get, as_dict, index_by}
use tamga_python.Python.Exc.{
  Exc, Result, ok, err, guard, Raises, Raises-bind, Raises-guard, value_error, unicode_error,
  invalid_signature, unsupported_algorithm, scheme_not_supported, or_value_error,
}
use tamga_python.Crypto.{derive_machine_file_key}
use tamga_python.Models.Machine.{
  LicenseScheme, ed25519_sign, rsa_2048_pkcs1_sign, rsa_2048_pkcs1_pss_sign, ecdsa_p256_sign,
  rsa_2048_jwt_rs256,
}
use tamga_python.Checkout.Runtime.{Runtime, LoadsJson}
use tamga_python.Checkout.Envelope.{json_value, b64decode_strict}
use tamga_python.Checkout.Claims.{machine_file, parse_claims, enforce_expiry}
use tamga_python.Checkout.Documented.{
  IsDocumented, IsVerifyError, Documented, or_value_error-Documented, b64decode_strict-Documented,
  json_value-Documented, json_loads-Documented, parse_claims-Documented, enforce_expiry-Documented,
  derive_machine_file_key-Documented, aes_gcm_decrypt-Documented,
}
use tamga_python.Checkout.LicenseFile.{encode_ascii, missing_data}
use tamga_python.Checkout.LicenseFile.Contract.{missing_data-Documented, readable-lem}
use tamga_python.Checkout.MachineFile.{
  MachineFile, enc_prefix_encrypted, alg_v2_marker, valid_algorithms, validate_alg, open_payload,
  decrypt, decode_payload, attributes_of, interpret, verify_as, verify_with_claims, unverified_kid,
}
use tamga_python.Crypto.Errors.{LoadsKeys}
use tamga_python.Python.Exc.{IsUnsupported}
use tamga_python.Checkout.MachineFile.Verifiers.{Verifier, verifier-Raises}

validate_alg-Documented : (alg : Str) → Documented (validate_alg alg)
unfolding validate_alg
validate_alg-Documented alg =
    let first = partition b'+' alg in
    let last = rpartition b'+' first.after in
    let marked = first.found && last.found && str_eq last.after alg_v2_marker in
    let valid = any (str_eq alg) valid_algorithms in
    Raises-bind IsDocumented (guard marked value_error) _
      (Raises-guard IsDocumented marked value_error refl)
      λ u _.
        Raises-bind IsDocumented (guard valid value_error) _
          (Raises-guard IsDocumented valid value_error refl) λ v _. tt

attributes_of-Documented : (o : Option Json) → Documented (attributes_of o)
unfolding attributes_of
attributes_of-Documented none = tt
attributes_of-Documented (some null) = tt
attributes_of-Documented (some v) = ground (arith, or_value_error-Documented (as_dict v))

open_payload-Documented :
    (rt : Runtime) (enc license_key fingerprint : Str)
    → Documented (open_payload rt enc license_key fingerprint)
unfolding open_payload
open_payload-Documented rt enc license_key fingerprint =
    let parts = partition b'.' enc in
    let one_dot = parts.found && not (has_char b'.' parts.after) in
    Raises-bind IsDocumented (guard one_dot value_error) _
      (Raises-guard IsDocumented one_dot value_error refl)
      λ u _.
        Raises-bind IsDocumented (b64decode_strict parts.before) _ (b64decode_strict-Documented _)
          λ nonce _.
            Raises-bind IsDocumented (b64decode_strict parts.after) _
              (b64decode_strict-Documented _)
              λ text _.
                Raises-bind IsDocumented (guard (length nonce == 12) value_error) _
                  (Raises-guard IsDocumented (length nonce == 12) value_error refl)
                  λ v _.
                    Raises-bind IsDocumented (guard (not (ltb (length text) 16)) value_error) _
                      (Raises-guard IsDocumented (not (ltb (length text) 16)) value_error refl)
                      λ w _.
                        Raises-bind IsDocumented
                          (derive_machine_file_key rt.cryptography license_key fingerprint) _
                          (derive_machine_file_key-Documented rt.cryptography license_key
                            fingerprint)
                          λ key _. aes_gcm_decrypt-Documented rt.cryptography key nonce text

decrypt-Documented :
    (rt : Runtime) (enc : Str) (license_key fingerprint : Option Str)
    → Documented (decrypt rt enc license_key fingerprint)
unfolding decrypt
decrypt-Documented rt enc (some k) (some f) = open_payload-Documented rt enc k f
decrypt-Documented rt enc none f = refl
decrypt-Documented rt enc (some k) none = refl

-- What verification of a machine file raises: a refused scheme and an unsupported key besides.
abbrev pub IsMachineError : Exc → Type 0
IsMachineError e = (e ≡ scheme_not_supported) ⊎ (e ≡ unsupported_algorithm) ⊎ IsVerifyError e

machine_error {ℓ} : {A : Type ℓ} (r : Result A) → Documented r → Raises IsMachineError r
machine_error (ok a) h = tt
machine_error (err e) h = inr (inr (inr h))

unsupported {ℓ} : {A : Type ℓ} (r : Result A) → Raises IsUnsupported r → Raises IsMachineError r
unsupported (ok a) h = tt
unsupported (err e) h = inr (inl h)

module _ (rt : Runtime) (json : LoadsJson rt) (file : MachineFile)
    (license_key fingerprint : Option Str) where
  decode_payload-Documented :
      (prefix : Str) → Documented (decode_payload rt file prefix license_key fingerprint)
  unfolding decode_payload
  decode_payload-Documented prefix = elim (Bool-cases (str_eq prefix enc_prefix_encrypted)) [
    | inl e ↦ rw e (decrypt-Documented rt file.enc license_key fingerprint)
    | inr e ↦ rw e (b64decode_strict-Documented file.enc)
  ]

  interpret-Documented :
      (plaintext : Bytes) (now : Option ℤ) → Documented (interpret rt plaintext now)
  unfolding interpret
  interpret-Documented plaintext now =
      Raises-bind IsDocumented (json_value (rt.json_loads plaintext)) _
        (json_value-Documented rt json plaintext)
        λ parsed _.
          Raises-bind IsDocumented (missing_data (index_by parsed (codes "data"))) _
            (missing_data-Documented parsed _)
            λ data_member _.
              Raises-bind IsDocumented (or_value_error (as_dict data_member)) _
                (or_value_error-Documented _)
                λ fields _.
                  Raises-bind IsDocumented (parse_claims rt.repr parsed) _
                    (parse_claims-Documented rt.repr parsed)
                    λ claims _.
                      Raises-bind IsDocumented (enforce_expiry machine_file claims now rt.clock) _
                        (enforce_expiry-Documented machine_file claims now rt.clock)
                        λ u _.
                          Raises-bind IsDocumented (or_value_error (get fields (codes "id"))) _
                            (or_value_error-Documented _)
                            λ id _.
                              Raises-bind IsDocumented
                                (attributes_of (get fields (codes "attributes"))) _
                                (attributes_of-Documented _) λ attributes _. tt

  verify_as-Raises :
      (verifier : Verifier) (suffix : Str) (public_key : Bytes) (now : Option ℤ)
      → ((pk m s : Bytes) → Raises IsUnsupported (verifier pk m s))
      → Raises IsMachineError
          (verify_as rt file verifier suffix public_key license_key fingerprint now)
  unfolding verify_as encode_ascii
  verify_as-Raises verifier suffix public_key now raises =
      Raises-bind IsMachineError (validate_alg file.alg) _
        (machine_error _ (validate_alg-Documented file.alg))
        λ (prefix, found) _.
          Raises-bind IsMachineError (guard (str_eq found suffix) value_error) _
            (Raises-guard IsMachineError (str_eq found suffix) value_error (inr (inr (inr refl))))
            λ u _.
              Raises-bind IsMachineError (encode_ascii file.enc) _
                (Raises-bind IsMachineError (guard (is_ascii file.enc) unicode_error) _
                  (Raises-guard IsMachineError (is_ascii file.enc) unicode_error
                    (inr (inr (inr refl))))
                  λ u _. tt)
                λ message _.
                  Raises-bind IsMachineError (verifier public_key message file.sig) _
                    (unsupported _ (raises public_key message file.sig))
                    λ verified _.
                      Raises-bind IsMachineError (guard verified invalid_signature) _
                        (Raises-guard IsMachineError verified invalid_signature
                          (inr (inr (inl refl))))
                        λ v _.
                          Raises-bind IsMachineError
                            (decode_payload rt file prefix license_key fingerprint) _
                            (machine_error _ (decode_payload-Documented prefix))
                            λ plaintext _. machine_error _ (interpret-Documented plaintext now)

  module _ (loads : LoadsKeys rt.cryptography) (public_key : Bytes) (now : Option ℤ) where
    -- Where `json.loads` and the key loaders raise only their documented errors, verification of
    -- any machine file under any scheme returns or raises SchemeNotSupportedError,
    -- UnsupportedAlgorithm, a ValueError, InvalidSignature or InvalidTag.
    pub verify_machine-Documented :
        (scheme : LicenseScheme)
        → Raises IsMachineError
            (verify_with_claims rt file public_key scheme license_key fingerprint now)
    unfolding verify_with_claims
    verify_machine-Documented ed25519_sign =
        verify_as-Raises _ _ public_key now
          (verifier-Raises rt.cryptography loads ed25519_sign _ refl)
    verify_machine-Documented rsa_2048_pkcs1_sign =
        verify_as-Raises _ _ public_key now
          (verifier-Raises rt.cryptography loads rsa_2048_pkcs1_sign _ refl)
    verify_machine-Documented rsa_2048_pkcs1_pss_sign =
        verify_as-Raises _ _ public_key now
          (verifier-Raises rt.cryptography loads rsa_2048_pkcs1_pss_sign _ refl)
    verify_machine-Documented ecdsa_p256_sign =
        verify_as-Raises _ _ public_key now
          (verifier-Raises rt.cryptography loads ecdsa_p256_sign _ refl)
    verify_machine-Documented rsa_2048_jwt_rs256 = inl refl

  -- Where `json.loads` raises only its documented errors, reading the key id that an unverified
  -- machine file claims returns a key id or None, whatever its algorithm and payload.
  machine_unverified_kid-total :
      (kid : Option Str) × (unverified_kid rt file license_key fingerprint tt ≡ ok kid)
  unfolding unverified_kid
  machine_unverified_kid-total = readable-lem _ (
      Raises-bind IsDocumented (validate_alg file.alg) _ (validate_alg-Documented file.alg)
        λ (prefix, found) _.
          Raises-bind IsDocumented (decode_payload rt file prefix license_key fingerprint) _
            (decode_payload-Documented prefix)
            λ plaintext _.
              Raises-bind IsDocumented (rt.json_loads plaintext) _
                (json_loads-Documented rt json plaintext)
                λ parsed _. parse_claims-Documented rt.repr parsed)
