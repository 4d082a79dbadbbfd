-- ===== src/Checkout/MachineFile/Verifiers.antt =====
-- What the verifier of a scheme can raise over a machine file.
use mathlib.Core.Path.{subst}
use tamga_python.Prelude.{◌≡◌, Bool, Option, some}
use tamga_python.Python.Str.{Bytes}
use tamga_python.Python.Exc.{Result, Raises, Raises-bind}
use tamga_python.Crypto.{
  Cryptography, load_rsa_public_key, load_ec_public_key, verify_pkcs1v15, verify_pss, verify_p256,
}
use tamga_python.Models.Machine.{
  LicenseScheme, ed25519_sign, rsa_2048_pkcs1_sign, rsa_2048_pkcs1_pss_sign, ecdsa_p256_sign,
  rsa_2048_jwt_rs256,
}
use tamga_python.Checkout.MachineFile.{verifier_of}
use tamga_python.Crypto.Errors.{
  LoadsKeys, IsCheckError, as_verdict-Raises, as_result-Raises, load_rsa-Raises, load_ec-Raises,
  ed25519_verify-Raises,
}
use tamga_python.Python.Exc.{IsUnsupported}

abbrev pub Verifier : Type 0
Verifier = Bytes → Bytes → Bytes → Result Bool

some-eq : {v w : Verifier} → ◌≡◌ {A = Option Verifier} (some v) (some w) → v ≡ w
some-eq h = cc h

module _ (c : Cryptography) (loads : LoadsKeys c) where
  pub verifier-Raises :
      (scheme : LicenseScheme) (verifier : Bytes → Bytes → Bytes → Result Bool)
      → verifier_of c scheme ≡ some verifier
      → (public_key message signature : Bytes)
      → Raises IsUnsupported (verifier public_key message signature)
  verifier-Raises ed25519_sign verifier e pk m s =
      subst (λ v. Raises IsUnsupported (v pk m s)) (some-eq e)
        (ed25519_verify-Raises c loads pk m s)
  verifier-Raises rsa_2048_pkcs1_sign verifier e pk m s =
      subst (λ v. Raises IsUnsupported (v pk m s)) (some-eq e)
        (unfold verify_pkcs1v15 in
          as_verdict-Raises _ (
            Raises-bind IsCheckError (load_rsa_public_key c pk) _ (load_rsa-Raises c loads pk)
              λ key _. as_result-Raises _))
  verifier-Raises rsa_2048_pkcs1_pss_sign verifier e pk m s =
      subst (λ v. Raises IsUnsupported (v pk m s)) (some-eq e)
        (unfold verify_pss in
          as_verdict-Raises _ (
            Raises-bind IsCheckError (load_rsa_public_key c pk) _ (load_rsa-Raises c loads pk)
              λ key _. as_result-Raises _))
  verifier-Raises ecdsa_p256_sign verifier e pk m s =
      subst (λ v. Raises IsUnsupported (v pk m s)) (some-eq e)
        (unfold verify_p256 in
          as_verdict-Raises _ (
            Raises-bind IsCheckError (load_ec_public_key c pk) _ (load_ec-Raises c loads pk)
              λ key _. as_result-Raises _))
  verifier-Raises rsa_2048_jwt_rs256 verifier e pk m s = absurd (cc e)
