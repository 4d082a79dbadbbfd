-- ===== src/Checkout/LicenseFile/Contract.antt =====
-- The errors that verification of a license file can raise.
use tamga_python.Prelude.{
  ◌≡◌, refl, ◌⊎◌, Option, none, some, arith, inl, inr, Bool-cases, Option-cases, ltb, length, not,
  ◌+◌,
}
use tamga_python.Python.Int.{ℤ}
use tamga_python.Python.Str.{Str, Bytes, codes, str_eq, is_ascii}
use tamga_python.Python.Json.{Json, null, get, as_dict, index_by, subscript}
use tamga_python.Python.Exc.{
  Exc, IsUnsupported, unsupported_algorithm, Result, ok, err, guard, Raises, Raises-bind,
  Raises-guard, value_error, unicode_error, invalid_signature, or_value_error,
}
use tamga_python.Crypto.Errors.{LoadsKeys, ed25519_verify-Raises}
use tamga_python.Crypto.{ed25519_verify, derive_license_file_key}
use tamga_python.Checkout.Runtime.{Runtime, LoadsJson}
use tamga_python.Checkout.Envelope.{json_value, b64decode_strict}
use tamga_python.Checkout.Claims.{LicenseFileClaims, license_file, parse_claims, enforce_expiry}
use tamga_python.Checkout.Documented.{
  IsDocumented, IsVerifyError, Documented, or_value_error-Documented, b64decode_strict-Documented,
  json_value-Documented, json_loads-Documented, parse_claims-Documented, enforce_expiry-Documented,
  derive_license_file_key-Documented, aes_gcm_decrypt-Documented,
}
use tamga_python.Checkout.LicenseFile.{
  LicenseFile, alg_encrypted, nonce_length, gcm_tag_length, encode_ascii, decrypt, decode_payload,
  missing_data, member_or_empty, license_resource_from, interpret, verify_with_claims, readable,
  unverified_kid,
}

-- What verification of a license file raises: an unsupported key besides.
abbrev pub IsLicenseError : Exc → Type 0
IsLicenseError e = (e ≡ unsupported_algorithm) ⊎ IsVerifyError e

license_error {ℓ} : {A : Type ℓ} (r : Result A) → Documented r → Raises IsLicenseError r
license_error (ok a) h = tt
license_error (err e) h = inr (inr h)

unsupported {ℓ} : {A : Type ℓ} (r : Result A) → Raises IsUnsupported r → Raises IsLicenseError r
unsupported (ok a) h = tt
unsupported (err e) h = inl h

pub missing_data-Documented :
    (parsed : Json) (k : Str) → Documented (missing_data (index_by parsed k))
unfolding missing_data index_by subscript
missing_data-Documented (Json.obj fields) k = elim (Option-cases (get fields k)) [
  | inl e ↦ rw (missing_data, subscript, e) refl
  | inr (v, e) ↦ rw (missing_data, subscript, e) tt
]
missing_data-Documented Json.null k = refl
missing_data-Documented (Json.bool b) k = refl
missing_data-Documented (Json.int n) k = refl
missing_data-Documented (Json.float x) k = refl
missing_data-Documented (Json.str s) k = refl
missing_data-Documented (Json.arr items) k = refl

member_or_empty-Documented : (o : Option Json) → Documented (member_or_empty o)
unfolding member_or_empty
member_or_empty-Documented none = tt
member_or_empty-Documented (some null) = tt
member_or_empty-Documented (some v) = ground (arith, or_value_error-Documented (as_dict v))

pub license_resource_from-Documented : (v : Json) → Documented (license_resource_from v)
unfolding license_resource_from
license_resource_from-Documented v =
    Raises-bind IsDocumented (or_value_error (as_dict v)) _ (or_value_error-Documented _)
      λ fields _.
        Raises-bind IsDocumented (or_value_error (get fields (codes "id"))) _
          (or_value_error-Documented _)
          λ id _.
            Raises-bind IsDocumented (or_value_error (get fields (codes "type"))) _
              (or_value_error-Documented _)
              λ type _.
                Raises-bind IsDocumented (member_or_empty (get fields (codes "attributes"))) _
                  (member_or_empty-Documented _)
                  λ attributes _.
                    Raises-bind IsDocumented (member_or_empty (get fields (codes "relationships")))
                      _ (member_or_empty-Documented _) λ relationships _. tt

-- What can be read of a file without checking it, or is documented not to be readable.
pub readable-lem :
    (r : Result LicenseFileClaims) → Documented r → (kid : Option Str) × (readable r ≡ ok kid)
unfolding readable
readable-lem (ok claims) h = (some claims.kid, refl)
readable-lem (err e) h = (none, ground (arith, h))

decrypt-Documented :
    (rt : Runtime) (payload : Bytes) (k : Option Str) → Documented (decrypt rt payload k)
unfolding decrypt
decrypt-Documented rt payload none = refl
decrypt-Documented rt payload (some license_key) =
    Raises-bind IsDocumented
      (guard (not (ltb (length payload) (nonce_length + gcm_tag_length))) value_error) _
      (Raises-guard IsDocumented (not (ltb (length payload) (nonce_length + gcm_tag_length)))
        value_error refl)
      λ u _.
        Raises-bind IsDocumented (derive_license_file_key rt.cryptography license_key) _
          (derive_license_file_key-Documented rt.cryptography license_key)
          λ key _. aes_gcm_decrypt-Documented rt.cryptography key _ _

module _ (rt : Runtime) (json : LoadsJson rt) (file : LicenseFile) (license_key : Option Str) where
  decode_payload-Documented : Documented (decode_payload rt file license_key)
  unfolding decode_payload
  decode_payload-Documented =
      Raises-bind IsDocumented (b64decode_strict file.enc) _ (b64decode_strict-Documented _)
        λ payload _. elim (Bool-cases (str_eq file.alg alg_encrypted)) [
          | inl e ↦ rw e (decrypt-Documented rt payload license_key)
          | inr e ↦ rw e tt
        ]

  interpret-Documented : (now : Option ℤ) → Documented (interpret rt file license_key now)
  unfolding interpret
  interpret-Documented now =
      Raises-bind IsDocumented (decode_payload rt file license_key) _ decode_payload-Documented
        λ plaintext _.
          Raises-bind IsDocumented (json_value (rt.json_loads plaintext)) _
            (json_value-Documented rt json plaintext)
            λ parsed _.
              Raises-bind IsDocumented (missing_data (index_by parsed (codes "data"))) _
                (missing_data-Documented parsed _)
                λ data_member _.
                  Raises-bind IsDocumented (parse_claims rt.repr parsed) _
                    (parse_claims-Documented rt.repr parsed)
                    λ claims _.
                      Raises-bind IsDocumented (enforce_expiry license_file claims now rt.clock) _
                        (enforce_expiry-Documented license_file claims now rt.clock)
                        λ u _.
                          Raises-bind IsDocumented (license_resource_from data_member) _
                            (license_resource_from-Documented data_member) λ license _. tt

  -- Where `json.loads` and the loaders of keys raise only their documented errors, verification of
  -- any license file either returns or raises UnsupportedAlgorithm, a ValueError (or a subclass of
  -- it), InvalidSignature or InvalidTag.
  pub verify_with_claims-Documented :
      (loads : LoadsKeys rt.cryptography) (public_key : Bytes) (now : Option ℤ)
      → Raises IsLicenseError (verify_with_claims rt file public_key license_key now)
  unfolding verify_with_claims encode_ascii
  verify_with_claims-Documented loads public_key now =
      Raises-bind IsLicenseError (encode_ascii file.enc) _
        (Raises-bind IsLicenseError (guard (is_ascii file.enc) unicode_error) _
          (Raises-guard IsLicenseError _ _ (inr (inr refl))) λ u _. tt)
        λ message _.
          Raises-bind IsLicenseError (ed25519_verify rt.cryptography public_key message file.sig) _
            (unsupported _
              (ed25519_verify-Raises rt.cryptography loads public_key message file.sig))
            λ verified _.
              Raises-bind IsLicenseError (guard verified invalid_signature) _
                (Raises-guard IsLicenseError verified invalid_signature (inr (inl refl)))
                λ u _. license_error (interpret rt file license_key now) (interpret-Documented now)

  -- Where `json.loads` raises only its documented errors, reading the key id that an unverified
  -- license file claims raises nothing: it returns a key id or None.
  pub unverified_kid-total : (kid : Option Str) × (unverified_kid rt file license_key tt ≡ ok kid)
  unfolding unverified_kid
  unverified_kid-total = readable-lem _ (
      Raises-bind IsDocumented (decode_payload rt file license_key) _ decode_payload-Documented
        λ plaintext _.
          Raises-bind IsDocumented (rt.json_loads plaintext) _
            (json_loads-Documented rt json plaintext)
            λ parsed _. parse_claims-Documented rt.repr parsed)
