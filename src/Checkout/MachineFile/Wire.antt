-- ===== src/Checkout/MachineFile/Wire.antt =====
-- The wire format of an encrypted payload: two texts of base64, joined by a full stop.
use tamga_python.Prelude.{
  ℕ, ◌≡◌, ◌≤◌, true, false, [], ◌∷◌, ◌++◌, arith, ltb, length, ◌==◌, All, Bool-cases, inl, inr,
}
use tamga_python.Python.Str.{Str, Bytes, partition, has_char}
use tamga_python.Python.Base64.{b64encode}
use tamga_python.Python.Base64.Roundtrip.{IsByte}
use tamga_python.Python.Exc.{◌>>=◌}
use tamga_python.Crypto.{derive_machine_file_key, aes_gcm_decrypt}
use tamga_python.Checkout.Runtime.{Runtime}
use tamga_python.Checkout.Envelope.Strict.{b64decode_strict-b64encode, has_char-b64encode}
use tamga_python.Checkout.MachineFile.{open_payload}

partition-joined :
    (c : ℕ) (s t : Str)
    → has_char c s ≡ false
    → partition c (s ++ (c ∷ t)) ≡ record { before = s; found = true; after = t }
unfolding partition has_char
partition-joined c [] t h = ground arith
partition-joined c (d ∷ s) t h = elim (Bool-cases (d == c)) [
  | inl e ↦ absurd (ground arith)
  | inr e ↦ rw (e, partition-joined c s t (unfold has_char in ground arith))
]

-- The two texts of an encrypted payload.
abbrev pub joined : Bytes → Bytes → Str
joined nonce ciphertext_and_tag = b64encode nonce ++ (b'.' ∷ b64encode ciphertext_and_tag)

-- Opening what a server joins, a nonce of twelve bytes and a ciphertext of at least the sixteen
-- bytes of its tag, opens that ciphertext with that nonce, under the key derived of the license key
-- and the fingerprint.
pub open_payload-joined :
    (rt : Runtime) (license_key fingerprint : Str) (nonce ciphertext_and_tag : Bytes)
    → All IsByte nonce
    → All IsByte ciphertext_and_tag
    → length nonce ≡ 12
    → 16 ≤ length ciphertext_and_tag
    → open_payload rt (joined nonce ciphertext_and_tag) license_key fingerprint ≡ (
        derive_machine_file_key rt.cryptography license_key fingerprint >>= λ key.
        aes_gcm_decrypt rt.cryptography key nonce ciphertext_and_tag)
unfolding open_payload
open_payload-joined rt license_key fingerprint nonce text hn ht long enough =
    let one_dot =
      partition-joined b'.' (b64encode nonce) (b64encode text) (has_char-b64encode nonce hn) in
    let whole : ltb (length text) 16 ≡ false = ground arith in
    rw (
      one_dot,
      has_char-b64encode text ht,
      (b64decode_strict-b64encode nonce hn).0,
      (b64decode_strict-b64encode text ht).0,
      long,
      whole,
    )
