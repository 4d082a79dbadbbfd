-- ===== src/Checkout/MachineFile/Sound.antt =====
-- What a verified machine file guarantees.
use mathlib.Core.Path.{subst}
use tamga_python.Prelude.{◌≡◌, refl, ◌∙◌, ap, Bool, true, false, Option, some, inl, inr, Bool-cases}
use tamga_python.Python.Int.{ℤ}
use tamga_python.Python.Str.{Str, Bytes, str_eq, str_eq_iff, str_eq_self, is_ascii}
use tamga_python.Python.Exc.{
  Result, ok, guard, >>=-eq-ok, guard-eq-ok, invalid_signature, value_error,
}
use tamga_python.Models.Machine.{
  LicenseScheme, ed25519_sign, rsa_2048_pkcs1_sign, rsa_2048_pkcs1_pss_sign, ecdsa_p256_sign,
  rsa_2048_jwt_rs256, MachineResource,
}
use tamga_python.Checkout.Runtime.{Runtime}
use tamga_python.Checkout.Claims.{LicenseFileClaims}
use tamga_python.Checkout.LicenseFile.{encode_ascii}
use tamga_python.Checkout.MachineFile.{
  MachineFile, algorithm, alg_suffix_of, validate_alg, verifier_of, is_rejected, decode_payload,
  verify_as, verify_with_claims,
}
use tamga_python.Checkout.MachineFile.Algorithm.{IsPrefix, IsSuffix, validate_alg_iff}
use tamga_python.Checkout.MachineFile.Payload.{Payload, interpret-Payload, Payload-interpret}

encode_ascii-eq-ok :
    (s : Str) {bs : Bytes} → encode_ascii s ≡ ok bs → (is_ascii s ≡ true) × (s ≡ bs)
unfolding encode_ascii
encode_ascii-eq-ok s h = elim (Bool-cases (is_ascii s)) [
  | inl e ↦ (e, cc (rw e at h))
  | inr e ↦ absurd (cc (rw e at h))
]

module _ (rt : Runtime) (file : MachineFile) (public_key : Bytes)
    (license_key fingerprint : Option Str) (now : Option ℤ) where
  -- The algorithm names the suffix, the signature covers the text of `enc`, and the payload, opened
  -- as the algorithm's prefix says, holds this machine and these claims.
  pub record Accepted (verifier : Bytes → Bytes → Bytes → Result Bool) (suffix : Str)
      (machine : MachineResource) (claims : LicenseFileClaims) : Type 0 where
    pub prefix : Str
    pub known_prefix : IsPrefix prefix
    pub known_suffix : IsSuffix suffix
    pub named : file.alg ≡ algorithm prefix suffix
    pub ascii : is_ascii file.enc ≡ true
    pub signed : verifier public_key file.enc file.sig ≡ ok true
    pub plaintext : Bytes
    pub opened : decode_payload rt file prefix license_key fingerprint ≡ ok plaintext
    pub payload : Payload rt plaintext now machine claims

  module _ (verifier : Bytes → Bytes → Bytes → Result Bool) (suffix : Str)
      (machine : MachineResource) (claims : LicenseFileClaims) where
    verify_as-Accepted :
        verify_as rt file verifier suffix public_key license_key fingerprint now
          ≡ ok (machine, claims)
        → Accepted verifier suffix machine claims
    unfolding verify_as
    verify_as-Accepted h =
        let ((prefix, found), parts, h1) = >>=-eq-ok (validate_alg file.alg) _ h in
        let (u, agree, h2) = >>=-eq-ok (guard (str_eq found suffix) value_error) _ h1 in
        let (message, encoded, h3) = >>=-eq-ok (encode_ascii file.enc) _ h2 in
        let (verified, checked, h4) = >>=-eq-ok (verifier public_key message file.sig) _ h3 in
        let (v, passed, h5) = >>=-eq-ok (guard verified invalid_signature) _ h4 in
        let (plaintext, opened, h6) =
          >>=-eq-ok (decode_payload rt file prefix license_key fingerprint) _ h5 in
        let (ascii, same) = encode_ascii-eq-ok file.enc encoded in
        let same_suffix : found ≡ suffix = (str_eq_iff found suffix).0 (guard-eq-ok _ _ agree) in
        let (known_prefix, known_found, named) = (validate_alg_iff file.alg prefix found).0 parts in
        record {
          prefix = prefix;
          known_prefix = known_prefix;
          known_suffix = subst (λ (q : Str). IsSuffix q) same_suffix known_found;
          named = named ∙ ap (algorithm prefix) same_suffix;
          ascii = ascii;
          signed = rw same (checked ∙ ap ok (guard-eq-ok verified invalid_signature passed));
          plaintext = plaintext;
          opened = opened;
          payload = interpret-Payload rt plaintext now machine claims h6;
        }

    Accepted-verify_as :
        Accepted verifier suffix machine claims
        → verify_as rt file verifier suffix public_key license_key fingerprint now
          ≡ ok (machine, claims)
    unfolding verify_as encode_ascii
    Accepted-verify_as a =
        rw
          (
            (validate_alg_iff file.alg a.prefix suffix).1 (a.known_prefix, a.known_suffix, a.named),
            str_eq_self suffix,
            a.ascii,
            a.signed,
            a.opened,
          )
          (Payload-interpret rt a.plaintext now machine claims a.payload)

  -- The scheme's verifier and suffix accept the file.
  abbrev pub AcceptedAs : LicenseScheme → MachineResource → LicenseFileClaims → Type 0
  AcceptedAs scheme machine claims =
      (verifier : Bytes → Bytes → Bytes → Result Bool) × (suffix : Str) × (verifier_of
          rt.cryptography scheme
        ≡ some verifier)
      × (alg_suffix_of scheme ≡ some suffix)
      × Accepted verifier suffix machine claims

  verify_with_claims-AcceptedAs :
      (scheme : LicenseScheme) (machine : MachineResource) (claims : LicenseFileClaims)
      → verify_with_claims rt file public_key scheme license_key fingerprint now
        ≡ ok (machine, claims)
      → AcceptedAs scheme machine claims
  unfolding verify_with_claims
  verify_with_claims-AcceptedAs ed25519_sign machine claims h =
      (_, _, refl, refl, verify_as-Accepted _ _ machine claims h)
  verify_with_claims-AcceptedAs rsa_2048_pkcs1_sign machine claims h =
      (_, _, refl, refl, verify_as-Accepted _ _ machine claims h)
  verify_with_claims-AcceptedAs rsa_2048_pkcs1_pss_sign machine claims h =
      (_, _, refl, refl, verify_as-Accepted _ _ machine claims h)
  verify_with_claims-AcceptedAs ecdsa_p256_sign machine claims h =
      (_, _, refl, refl, verify_as-Accepted _ _ machine claims h)
  verify_with_claims-AcceptedAs rsa_2048_jwt_rs256 machine claims h = absurd (cc h)

  not_rejected :
      (scheme : LicenseScheme) {verifier : Bytes → Bytes → Bytes → Result Bool}
      → verifier_of rt.cryptography scheme ≡ some verifier
      → is_rejected scheme ≡ false
  not_rejected ed25519_sign h = refl
  not_rejected rsa_2048_pkcs1_sign h = refl
  not_rejected rsa_2048_pkcs1_pss_sign h = refl
  not_rejected ecdsa_p256_sign h = refl
  not_rejected rsa_2048_jwt_rs256 h = absurd (cc h)

  -- Verification returns a machine and claims exactly when the license's scheme has a verifier and
  -- a suffix, the algorithm is an encoding prefix with that suffix and the marker of format v2, the
  -- text of `enc` is ASCII and passes that verifier, and the payload, opened as the prefix says,
  -- holds that machine and those claims, which have not expired.
  pub verify_machine_iff :
      (scheme : LicenseScheme) (machine : MachineResource) (claims : LicenseFileClaims)
      → (verify_with_claims rt file public_key scheme license_key fingerprint now
            ≡ ok (machine, claims)
          → AcceptedAs scheme machine claims)
        × (AcceptedAs scheme machine claims
            → verify_with_claims rt file public_key scheme license_key fingerprint now
              ≡ ok (machine, claims))
  unfolding verify_with_claims
  verify_machine_iff scheme machine claims = (
    verify_with_claims-AcceptedAs scheme machine claims,
    λ (verifier, suffix, e, f, a).
        rw (not_rejected scheme e, e, f) (Accepted-verify_as verifier suffix machine claims a),
  )
