-- ===== src/Checkout/MachineFile/Keyed.antt =====
-- The verification of a machine file against a key set.
use mathlib.Core.List.{Memᴰ}
use mathlib.Core.Path.{subst}
use tamga_python.Prelude.{◌≡◌, refl, Option, inl, inr, Bool-cases}
use tamga_python.Python.Int.{ℤ}
use tamga_python.Python.Str.{Str, Bytes, is_ascii}
use tamga_python.Python.Exc.{ok, >>=-eq-ok}
use tamga_python.Crypto.{ed25519_verify}
use tamga_python.Models.Machine.{
  LicenseScheme, ed25519_sign, rsa_2048_pkcs1_sign, rsa_2048_pkcs1_pss_sign, ecdsa_p256_sign,
  rsa_2048_jwt_rs256,
}
use tamga_python.Checkout.Runtime.{Runtime}
use tamga_python.Checkout.KeySet.{SigningKeySet, resolve_signing_key}
use tamga_python.Checkout.KeySet.Resolve.{Verifies, resolve_signing_key_sound}
use tamga_python.Checkout.LicenseFile.{encode_ascii}
use tamga_python.Checkout.MachineFile.{
  MachineFile, VerifiedMachineFile, verify_with_claims, unverified_kid, verify_with_key_set,
}

module _ (rt : Runtime) (file : MachineFile) (license_key fingerprint : Option Str)
    (now : Option ℤ) where
  -- No machine file verifies against a key set under another scheme than Ed25519. One that does
  -- holds its machine and its current claims under an Ed25519 key of the set that signed it, and
  -- that key is the one returned.
  pub verify_machine_with_key_set_sound :
      (key_set : SigningKeySet) (scheme : LicenseScheme) (v : VerifiedMachineFile)
      → verify_with_key_set rt file key_set scheme license_key fingerprint now ≡ ok v
      → (scheme ≡ ed25519_sign)
        × ((bs : Bytes) × Memᴰ v.key key_set.keys
            × Verifies (λ pk. ed25519_verify rt.cryptography pk file.enc file.sig) v.key bs
            × (verify_with_claims rt file bs ed25519_sign license_key fingerprint now
                ≡ ok (v.machine, v.claims)))
  unfolding verify_with_key_set encode_ascii
  verify_machine_with_key_set_sound key_set ed25519_sign v h =
      elim (Bool-cases (is_ascii file.enc)) [
        | inr a ↦ absurd (cc (rw a at h))
        | inl a ↦
            let ((key, bs), chosen, h1) =
              >>=-eq-ok
                (resolve_signing_key rt.sha256 key_set
                  (λ pk. ed25519_verify rt.cryptography pk file.enc file.sig)
                  (unverified_kid rt file license_key fingerprint))
                _ (rw a at h) in
            let ((machine, claims), verified, h2) =
              >>=-eq-ok (verify_with_claims rt file bs ed25519_sign license_key fingerprint now) _
                h1 in
            let same : record { machine = machine; claims = claims; key = key } ≡ v = cc h2 in
            let (m, k) = resolve_signing_key_sound rt.sha256 key_set _ _ key bs chosen in
            (
              refl,
              (
                bs,
                subst (λ (w : VerifiedMachineFile). Memᴰ w.key key_set.keys) same m,
                subst
                    (λ (w : VerifiedMachineFile).
                      Verifies (λ pk. ed25519_verify rt.cryptography pk file.enc file.sig) w.key bs)
                    same k,
                subst
                    (λ (w : VerifiedMachineFile).
                      verify_with_claims rt file bs ed25519_sign license_key fingerprint now
                      ≡ ok (w.machine, w.claims))
                    same verified,
              ),
            )
      ]
  verify_machine_with_key_set_sound key_set rsa_2048_pkcs1_sign v h = absurd (cc h)
  verify_machine_with_key_set_sound key_set rsa_2048_pkcs1_pss_sign v h = absurd (cc h)
  verify_machine_with_key_set_sound key_set ecdsa_p256_sign v h = absurd (cc h)
  verify_machine_with_key_set_sound key_set rsa_2048_jwt_rs256 v h = absurd (cc h)
