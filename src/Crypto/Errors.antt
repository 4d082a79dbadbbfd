-- ===== src/Crypto/Errors.antt =====
-- What loading a key and checking a signature can raise.
use tamga_python.Prelude.{◌≡◌, refl, ◌⊎◌, inl, inr, true, ◌&&◌, leb, length, ◌==◌, Bool-cases}
use tamga_python.Python.Str.{Bytes}
use tamga_python.Python.Exc.{
  IsUnsupported, Exc, Result, ok, err, is_value_error, Raises, Raises-bind, invalid_signature,
  unsupported_algorithm,
}
use tamga_python.Crypto.{
  ed25519_verify, Cryptography, PublicKey, Check, as_result, as_verdict, is_invalid_signature,
  min_key_size_bits, max_key_size_bits, Curve, or_on_value_error, check_rsa, check_ec,
  first_byte_is, load_rsa_public_key, load_ec_public_key, uncompressed_point_length,
}

-- The loaders of the package raise ValueError or UnsupportedAlgorithm, as they are documented.
abbrev pub IsLoadError : Exc → Type 0
IsLoadError e = (is_value_error e ≡ true) ⊎ (e ≡ unsupported_algorithm)

pub record LoadsKeys (c : Cryptography) : Type 0 where
  pub raw : (bytes : Bytes) → Raises IsLoadError (c.load_ed25519 bytes)
  pub pem : (bytes : Bytes) → Raises IsLoadError (c.load_pem bytes)
  pub der : (bytes : Bytes) → Raises IsLoadError (c.load_der bytes)
  pub point : (bytes : Bytes) → Raises IsLoadError (c.load_point bytes)

-- What a check of a signature raises before it is turned into a verdict.
abbrev pub IsCheckError : Exc → Type 0
IsCheckError e = (e ≡ invalid_signature) ⊎ IsLoadError e

pub as_verdict-Raises :
    (r : Result (Unit {0})) → Raises IsCheckError r → Raises IsUnsupported (as_verdict r)
unfolding as_verdict
as_verdict-Raises (ok u) h = tt
as_verdict-Raises (err e) (inl same) = rw same tt
as_verdict-Raises (err e) (inr (inl v)) = elim (Bool-cases (is_invalid_signature e)) [
  | inl i ↦ rw i tt
  | inr i ↦ rw (i, v) tt
]
as_verdict-Raises (err e) (inr (inr same)) = rw same refl

pub as_result-Raises : (check : Check) → Raises IsCheckError (as_result check)
unfolding as_result
as_result-Raises Check.passed = tt
as_result-Raises Check.bad_signature = inl refl
as_result-Raises Check.bad_value = inr (inl refl)

as-IsCheckError {ℓ} : {A : Type ℓ} (r : Result A) → Raises IsLoadError r → Raises IsCheckError r
as-IsCheckError (ok a) h = tt
as-IsCheckError (err e) h = inr h

or_on_value_error-Raises :
    (first second : Result PublicKey)
    → Raises IsLoadError first
    → Raises IsLoadError second
    → Raises IsCheckError (or_on_value_error first second)
unfolding or_on_value_error
or_on_value_error-Raises (ok k) s h g = tt
or_on_value_error-Raises (err e) second (inl v) g = rw v (as-IsCheckError second g)
or_on_value_error-Raises (err e) second (inr same) g = rw same (inr (inr refl))

check_rsa-Raises : (key : PublicKey) → Raises IsCheckError (check_rsa key)
unfolding check_rsa
check_rsa-Raises (PublicKey.rsa_key bits key) =
    elim (Bool-cases (leb min_key_size_bits bits && leb bits max_key_size_bits)) [
      | inl e ↦ rw e tt
      | inr e ↦ rw e (inr (inl refl))
    ]
check_rsa-Raises (PublicKey.ec_key curve key) = inr (inl refl)
check_rsa-Raises PublicKey.other_key = inr (inl refl)

check_ec-Raises : (key : PublicKey) → Raises IsCheckError (check_ec key)
unfolding check_ec
check_ec-Raises (PublicKey.ec_key Curve.secp256r1 key) = tt
check_ec-Raises (PublicKey.ec_key Curve.other_curve key) = inr (inl refl)
check_ec-Raises (PublicKey.rsa_key bits key) = inr (inl refl)
check_ec-Raises PublicKey.other_key = inr (inl refl)

module _ (c : Cryptography) (loads : LoadsKeys c) where
  pub load_rsa-Raises : (bytes : Bytes) → Raises IsCheckError (load_rsa_public_key c bytes)
  unfolding load_rsa_public_key
  load_rsa-Raises bytes =
      Raises-bind IsCheckError (or_on_value_error (c.load_pem bytes) (c.load_der bytes)) _
        (or_on_value_error-Raises _ _ (loads.pem bytes) (loads.der bytes))
        λ key _. check_rsa-Raises key

  pub load_ec-Raises : (bytes : Bytes) → Raises IsCheckError (load_ec_public_key c bytes)
  unfolding load_ec_public_key
  load_ec-Raises bytes =
      elim (Bool-cases (length bytes == uncompressed_point_length && first_byte_is 4 bytes)) [
        | inl e ↦ rw e (as-IsCheckError _ (loads.point bytes))
        | inr e ↦ rw e (
            Raises-bind IsCheckError (or_on_value_error (c.load_pem bytes) (c.load_der bytes)) _
              (or_on_value_error-Raises _ _ (loads.pem bytes) (loads.der bytes))
              λ key _. check_ec-Raises key)
      ]

  pub ed25519_verify-Raises :
      (public_key message signature : Bytes)
      → Raises IsUnsupported (ed25519_verify c public_key message signature)
  unfolding ed25519_verify
  ed25519_verify-Raises public_key message signature = as_verdict-Raises _ (
      Raises-bind IsCheckError (c.load_ed25519 public_key) _
        (as-IsCheckError (c.load_ed25519 public_key) (loads.raw public_key))
        λ key _. as_result-Raises _)
