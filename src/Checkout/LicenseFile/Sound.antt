-- ===== src/Checkout/LicenseFile/Sound.antt =====
-- What a verified license file guarantees.
use mathlib.Core.List.{Memᴰ}
use mathlib.Core.Path.{subst}
use tamga_python.Prelude.{◌≡◌, ◌≢◌, sym, ◌∙◌, ap, true, Option, inl, inr, Bool-cases}
use tamga_python.Python.Int.{ℤ}
use tamga_python.Python.Str.{Str, Bytes, codes, is_ascii}
use tamga_python.Python.Json.{Json, index_by}
use tamga_python.Python.Exc.{
  Exc, Result, ok, err, guard, >>=-eq-ok, guard-eq-ok, invalid_signature, unicode_error,
  json_decode_error, key_error, type_error,
}
use tamga_python.Crypto.{ed25519_verify}
use tamga_python.Checkout.Runtime.{Runtime}
use tamga_python.Checkout.Envelope.{json_value}
use tamga_python.Checkout.KeySet.{SigningKeySet, resolve_signing_key}
use tamga_python.Checkout.KeySet.Resolve.{
  Verifies, verdict, error_of_err, resolve_signing_key_sound,
}
use tamga_python.Checkout.Claims.{
  LicenseFileClaims, license_file, reference, parse_claims, enforce_expiry,
}
use tamga_python.Checkout.Claims.Expiry.{IsCurrent, enforce_expiry_iff}
use tamga_python.Checkout.LicenseFile.{
  LicenseFile, LicenseResource, VerifiedLicenseFile, encode_ascii, decode_payload, missing_data,
  license_resource_from, interpret, verify_with_claims, unverified_kid, verify_with_key_set,
}

pub json_value-eq-ok {ℓ} : {A : Type ℓ} (r : Result A) {v : A} → json_value r ≡ ok v → r ≡ ok v
unfolding json_value
json_value-eq-ok (ok v) h = h
json_value-eq-ok (err json_decode_error) h = cc
json_value-eq-ok (err _) h = cc

pub missing_data-eq-ok : (r : Result Json) {v : Json} → missing_data r ≡ ok v → r ≡ ok v
unfolding missing_data
missing_data-eq-ok (ok v) h = h
missing_data-eq-ok (err key_error) h = cc
missing_data-eq-ok (err type_error) h = cc
missing_data-eq-ok (err _) h = cc

module _ (rt : Runtime) (file : LicenseFile) (license_key : Option Str) (now : Option ℤ) where
  -- The payload decodes to a JSON object with these claims, which are current, and this license.
  pub record Holds (license : LicenseResource) (claims : LicenseFileClaims) : Type 0 where
    pub plaintext : Bytes
    pub decoded : decode_payload rt file license_key ≡ ok plaintext
    pub parsed : Json
    pub loaded : rt.json_loads plaintext ≡ ok parsed
    pub claimed : parse_claims rt.repr parsed ≡ ok claims
    pub current : IsCurrent claims (reference now rt.clock)
    pub data_member : Json
    pub present : index_by parsed (codes "data") ≡ ok data_member
    pub resource : license_resource_from data_member ≡ ok license

  interpret-Holds :
      (license : LicenseResource) (claims : LicenseFileClaims)
      → interpret rt file license_key now ≡ ok (license, claims)
      → Holds license claims
  unfolding interpret
  interpret-Holds license claims h =
      let (plaintext, decoded, h1) = >>=-eq-ok (decode_payload rt file license_key) _ h in
      let (parsed, loaded, h2) = >>=-eq-ok (json_value (rt.json_loads plaintext)) _ h1 in
      let (data_member, present, h3) =
        >>=-eq-ok (missing_data (index_by parsed (codes "data"))) _ h2 in
      let (claims', claimed, h4) = >>=-eq-ok (parse_claims rt.repr parsed) _ h3 in
      let (u, current, h5) = >>=-eq-ok (enforce_expiry license_file claims' now rt.clock) _ h4 in
      let (license', resource, h6) = >>=-eq-ok (license_resource_from data_member) _ h5 in
      let pair : ◌≡◌ {A = LicenseResource × LicenseFileClaims} (license', claims')
          (license, claims) =
        cc h6 in
      let same_license : license' ≡ license =
        ap (λ (p : LicenseResource × LicenseFileClaims). p.0) pair in
      let same_claims : claims' ≡ claims =
        ap (λ (p : LicenseResource × LicenseFileClaims). p.1) pair in
      record {
        plaintext = plaintext;
        decoded = decoded;
        parsed = parsed;
        loaded = json_value-eq-ok _ loaded;
        claimed = claimed ∙ ap ok same_claims;
        current =
            rw (← same_claims) ((enforce_expiry_iff license_file claims' now rt.clock).0 current);
        data_member = data_member;
        present = missing_data-eq-ok _ present;
        resource = resource ∙ ap ok same_license;
      }

  Holds-interpret :
      (license : LicenseResource) (claims : LicenseFileClaims)
      → Holds license claims
      → interpret rt file license_key now ≡ ok (license, claims)
  unfolding interpret json_value missing_data
  Holds-interpret license claims v = rw (
    v.decoded,
    v.loaded,
    v.present,
    v.claimed,
    (enforce_expiry_iff license_file claims now rt.clock).1 v.current,
    v.resource,
  )

  -- Verification returns a license and claims exactly when the text of `enc` is ASCII, the
  -- signature covers its bytes under the given key, the payload holds that license and those
  -- claims, and the claims have not expired.
  pub verify_with_claims_iff :
      (public_key : Bytes) (license : LicenseResource) (claims : LicenseFileClaims)
      → (verify_with_claims rt file public_key license_key now ≡ ok (license, claims)
          → (is_ascii file.enc ≡ true)
            × (ed25519_verify rt.cryptography public_key file.enc file.sig ≡ ok true)
            × Holds license claims)
        × ((is_ascii file.enc ≡ true)
              × (ed25519_verify rt.cryptography public_key file.enc file.sig ≡ ok true)
              × Holds license claims
            → verify_with_claims rt file public_key license_key now ≡ ok (license, claims))
  unfolding verify_with_claims encode_ascii
  verify_with_claims_iff public_key license claims = (
    λ h.
        let (message, e, h1) = >>=-eq-ok (encode_ascii file.enc) _ h in
        let (verified, checked, h2) =
          >>=-eq-ok (ed25519_verify rt.cryptography public_key message file.sig) _ h1 in
        let (u, g, h3) = >>=-eq-ok (guard verified invalid_signature) _ h2 in
        let (v, a, h4) = >>=-eq-ok (guard (is_ascii file.enc) unicode_error) _ e in
        let same : file.enc ≡ message = cc h4 in
        (
          guard-eq-ok (is_ascii file.enc) unicode_error a,
          rw same (checked ∙ ap ok (guard-eq-ok verified invalid_signature g)),
          interpret-Holds license claims h3,
        ),
    λ (ascii, signed, holds). rw (ascii, signed) (Holds-interpret license claims holds),
  )

  -- Any error but UnicodeEncodeError and InvalidSignature, and but what the check of the signature
  -- itself raises, is raised only for a file that is signed under the given key: an expiry, say, is
  -- never reported of a forged file.
  pub verify_with_claims-authentic :
      (public_key : Bytes) (e : Exc)
      → verify_with_claims rt file public_key license_key now ≡ err e
      → e ≢ unicode_error
      → e ≢ invalid_signature
      → ed25519_verify rt.cryptography public_key file.enc file.sig ≢ err e
      → ed25519_verify rt.cryptography public_key file.enc file.sig ≡ ok true
  unfolding verify_with_claims encode_ascii
  verify_with_claims-authentic public_key e h k l n = elim (Bool-cases (is_ascii file.enc)) [
    | inr a ↦ absurd (k (sym (error_of_err (rw a at h))))
    | inl a ↦ elim (verdict (ed25519_verify rt.cryptography public_key file.enc file.sig)) [
      | inl t ↦ t
      | inr (inl f) ↦ absurd (l (sym (error_of_err (rw (a, f) at h))))
      | inr (inr (x, f)) ↦ absurd (n (f ∙ ap err (error_of_err (rw (a, f) at h))))
    ]
  ]

  -- A file verified against a key set holds its license and its current claims under an Ed25519
  -- key of the set that signed it, and that key is the one returned.
  pub verify_with_key_set_sound :
      (key_set : SigningKeySet) (v : VerifiedLicenseFile)
      → verify_with_key_set rt file key_set license_key now ≡ ok v
      → (bs : Bytes) × Memᴰ v.key key_set.keys
        × Verifies (λ pk. ed25519_verify rt.cryptography pk file.enc file.sig) v.key bs
        × (verify_with_claims rt file bs license_key now ≡ ok (v.license, v.claims))
  unfolding verify_with_key_set encode_ascii
  verify_with_key_set_sound key_set v h = elim (Bool-cases (is_ascii file.enc)) [
    | inr a ↦ absurd (cc (rw a at h))
    | inl a ↦
        let ((key, bs), chosen, h1) =
          >>=-eq-ok
            (resolve_signing_key rt.sha256 key_set
              (λ pk. ed25519_verify rt.cryptography pk file.enc file.sig)
              (unverified_kid rt file license_key))
            _ (rw a at h) in
        let ((license, claims), verified, h2) =
          >>=-eq-ok (verify_with_claims rt file bs license_key now) _ h1 in
        let same : record { license = license; claims = claims; key = key } ≡ v = cc h2 in
        let (m, k) = resolve_signing_key_sound rt.sha256 key_set _ _ key bs chosen in
        (
          bs,
          subst (λ (w : VerifiedLicenseFile). Memᴰ w.key key_set.keys) same m,
          subst
              (λ (w : VerifiedLicenseFile).
                Verifies (λ pk. ed25519_verify rt.cryptography pk file.enc file.sig) w.key bs)
              same k,
          subst
              (λ (w : VerifiedLicenseFile).
                verify_with_claims rt file bs license_key now ≡ ok (w.license, w.claims))
              same verified,
        )
  ]
