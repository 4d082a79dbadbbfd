-- ===== src/Crypto/Keys.antt =====
-- Which keys a signature can be accepted under.
use tamga_python.Prelude.{
  ◌≡◌, refl, ℕ, ◌≤◌, true, ◌&&◌, ◌⊎◌, inl, inr, arith, ◌==◌, length, Bool-cases,
}
use tamga_python.Python.Str.{Bytes}
use tamga_python.Python.Exc.{Result, ok, err, ◌>>=◌, >>=-eq-ok}
use tamga_python.Crypto.{
  Check, passed, secp256r1, other_curve, PublicKey, rsa_key, ec_key, other_key, Cryptography,
  as_result, or_on_value_error, as_verdict, uncompressed_point_length, check_rsa, check_ec,
  first_byte_is, load_rsa_public_key, verify_pkcs1v15, verify_pss, load_ec_public_key, verify_p256,
}

-- The key that a loader returned from PEM, or from DER where PEM was refused.
abbrev pub Loads : Cryptography → Bytes → PublicKey → Type 0
Loads c bytes key = (c.load_pem bytes ≡ ok key) ⊎ (c.load_der bytes ≡ ok key)

module _ (c : Cryptography) where
  loads_either :
      (m n : Result PublicKey) (key : PublicKey)
      → or_on_value_error m n ≡ ok key
      → (m ≡ ok key) ⊎ (n ≡ ok key)
  unfolding or_on_value_error
  loads_either m n key h = ground arith

  as_verdict-true : (r : Result (Unit {0})) → as_verdict r ≡ ok true → r ≡ ok tt
  unfolding as_verdict
  as_verdict-true (ok tt) h = refl
  as_verdict-true (err e) h = ground arith

  as_result-ok : (k : Check) → as_result k ≡ ok tt → k ≡ passed
  unfolding as_result
  as_result-ok k h = ground arith

  check_rsa-ok :
      (loaded key : PublicKey)
      → check_rsa loaded ≡ ok key
      → (bits : ℕ) × (handle : Bytes) × (loaded ≡ rsa_key bits handle)
        × (key ≡ loaded)
        × (2048 ≤ bits)
        × (bits ≤ 8192)
  unfolding check_rsa
  check_rsa-ok (rsa_key bits handle) key h =
      (bits, handle, refl, ground arith, ground arith, ground arith)
  check_rsa-ok (ec_key curve handle) key h = cc
  check_rsa-ok other_key key h = cc

  -- A key that an RSA verifier may use: loaded from the given bytes, 2048 to 8192 bits.
  abbrev pub IsRsaKey : Bytes → PublicKey → Type 0
  IsRsaKey bytes key =
      (bits : ℕ) × (handle : Bytes) × (key ≡ rsa_key bits handle)
      × (2048 ≤ bits)
      × (bits ≤ 8192)
      × Loads c bytes key

  load_rsa_public_key-IsRsaKey :
      (bytes : Bytes) (key : PublicKey) → load_rsa_public_key c bytes ≡ ok key → IsRsaKey bytes key
  unfolding load_rsa_public_key
  load_rsa_public_key-IsRsaKey bytes key h =
      let (loaded, l, k) =
        >>=-eq-ok (or_on_value_error (c.load_pem bytes) (c.load_der bytes)) _ h in
      let (bits, handle, is_rsa, same, lo, hi) = check_rsa-ok loaded key k in
      (
        bits,
        handle,
        cc,
        lo,
        hi,
        rw same (loads_either (c.load_pem bytes) (c.load_der bytes) loaded l),
      )

  -- A PKCS#1 signature is accepted only under an RSA key of 2048 to 8192 bits, loaded from the
  -- given bytes, under which the package accepts it.
  pub verify_pkcs1v15_sound :
      (public_key message signature : Bytes)
      → verify_pkcs1v15 c public_key message signature ≡ ok true
      → (key : PublicKey) × IsRsaKey public_key key
        × (c.pkcs1v15_check key message signature ≡ passed)
  unfolding verify_pkcs1v15
  verify_pkcs1v15_sound public_key message signature h =
      let (key, e, k) = >>=-eq-ok (load_rsa_public_key c public_key) _ (as_verdict-true _ h) in
      (key, load_rsa_public_key-IsRsaKey public_key key e, as_result-ok _ k)

  -- A PSS signature is accepted only under an RSA key of 2048 to 8192 bits, loaded from the given
  -- bytes, under which the package accepts it.
  pub verify_pss_sound :
      (public_key message signature : Bytes)
      → verify_pss c public_key message signature ≡ ok true
      → (key : PublicKey) × IsRsaKey public_key key × (c.pss_check key message signature ≡ passed)
  unfolding verify_pss
  verify_pss_sound public_key message signature h =
      let (key, e, k) = >>=-eq-ok (load_rsa_public_key c public_key) _ (as_verdict-true _ h) in
      (key, load_rsa_public_key-IsRsaKey public_key key e, as_result-ok _ k)

  check_ec-ok :
      (loaded key : PublicKey)
      → check_ec loaded ≡ ok key
      → (handle : Bytes) × (key ≡ ec_key secp256r1 handle) × (key ≡ loaded)
  unfolding check_ec
  check_ec-ok (rsa_key bits handle) key h = cc
  check_ec-ok (ec_key secp256r1 handle) key h = (handle, cc, cc)
  check_ec-ok (ec_key other_curve handle) key h = cc
  check_ec-ok other_key key h = cc

  load_ec_public_key-lem :
      (bytes : Bytes) (key : PublicKey)
      → load_ec_public_key c bytes ≡ ok key
      → ((length bytes ≡ 65) × (c.load_point bytes ≡ ok key))
        ⊎ ((handle : Bytes) × (key ≡ ec_key secp256r1 handle) × Loads c bytes key)
  unfolding load_ec_public_key
  load_ec_public_key-lem bytes key h =
      elim (Bool-cases (length bytes == uncompressed_point_length && first_byte_is 4 bytes)) [
        | inl e ↦ inl (ground arith)
        | inr e ↦
            let rest : (or_on_value_error (c.load_pem bytes) (c.load_der bytes) >>= check_ec)
                ≡ ok key =
              rw e at h in
            let (loaded, l, k) =
              >>=-eq-ok (or_on_value_error (c.load_pem bytes) (c.load_der bytes)) _ rest in
            let (handle, is_p256, same) = check_ec-ok loaded key k in
            inr (
              handle,
              is_p256,
              rw same (loads_either (c.load_pem bytes) (c.load_der bytes) loaded l),
            )
      ]

  -- An ECDSA signature is accepted only under a raw point of 65 bytes or a loaded key whose curve
  -- is P-256, under which the package accepts it.
  pub verify_p256_sound :
      (public_key message signature : Bytes)
      → verify_p256 c public_key message signature ≡ ok true
      → (key : PublicKey) × (((length public_key ≡ 65) × (c.load_point public_key ≡ ok key))
          ⊎ ((handle : Bytes) × (key ≡ ec_key secp256r1 handle) × Loads c public_key key))
        × (c.ecdsa_check key message signature ≡ passed)
  unfolding verify_p256
  verify_p256_sound public_key message signature h =
      let (key, e, k) = >>=-eq-ok (load_ec_public_key c public_key) _ (as_verdict-true _ h) in
      (key, load_ec_public_key-lem public_key key e, as_result-ok _ k)
