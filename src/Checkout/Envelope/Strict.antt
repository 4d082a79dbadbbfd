-- ===== src/Checkout/Envelope/Strict.antt =====
-- `b64decode_strict` on what an encoder writes, with its padding or without it.
use tamga_python.Prelude.{
  ℕ, suc, ◌+◌, ◌-◌, ◌*◌, ◌/◌, ◌%◌, ◌<◌, ◌≡◌, refl, ap, false, [], ◌∷◌, ◌++◌, arith, ◌==◌, length,
  replicate, All, append-[],
}
use tamga_python.Python.Str.{Str, Bytes, has_char, is_space}
use tamga_python.Python.Base64.{letter, b64encode, b64encode_unpadded}
use tamga_python.Python.Base64.Roundtrip.{IsByte, b64decode-b64encode}
use tamga_python.Python.Exc.{ok, or_value_error}
use tamga_python.Checkout.Envelope.{padding_of, b64decode_strict}

padding_of-quad : (a b c d : ℕ) (s : Str) → padding_of (a ∷ b ∷ c ∷ d ∷ s) ≡ padding_of s
unfolding padding_of
padding_of-quad a b c d s =
    let same : (4 - suc (suc (suc (suc (length s)))) % 4) % 4 ≡ (4 - length s % 4) % 4 =
      omega arith in
    ap (λ (n : ℕ). replicate n 61) same

-- The padding is what an encoder leaves out.
b64encode-padding :
    (bs : Bytes) → b64encode_unpadded bs ++ padding_of (b64encode_unpadded bs) ≡ b64encode bs
unfolding b64encode b64encode_unpadded
b64encode-padding [] = unfold padding_of in refl
b64encode-padding (x ∷ []) = unfold padding_of in refl
b64encode-padding (x ∷ y ∷ []) = unfold padding_of in refl
b64encode-padding (x ∷ y ∷ z ∷ rest) = rw (padding_of-quad, b64encode-padding rest)

padding_of-b64encode : (bs : Bytes) → padding_of (b64encode bs) ≡ []
unfolding b64encode
padding_of-b64encode [] = unfold padding_of in refl
padding_of-b64encode (x ∷ []) = unfold padding_of in refl
padding_of-b64encode (x ∷ y ∷ []) = unfold padding_of in refl
padding_of-b64encode (x ∷ y ∷ z ∷ rest) = rw padding_of-quad (padding_of-b64encode rest)

-- Strict decoding of what bytes are encoded to returns them, whether the encoder wrote its padding
-- or left it out.
pub b64decode_strict-b64encode :
    (bs : Bytes)
    → All IsByte bs
    → (b64decode_strict (b64encode bs) ≡ ok bs) × (b64decode_strict (b64encode_unpadded bs) ≡ ok bs)
unfolding b64decode_strict or_value_error
b64decode_strict-b64encode bs h = (
  rw (padding_of-b64encode bs, append-[] (b64encode bs), b64decode-b64encode bs h),
  rw (b64encode-padding bs, b64decode-b64encode bs h),
)

-- A character of an encoding is no white space and no full stop.
IsLetter : ℕ → Type 0
unfolding is_space
IsLetter c = (is_space c ≡ false) × ((c == b'.') ≡ false)

letter-IsLetter : (v : ℕ) → v < 64 → IsLetter (letter v)
unfolding IsLetter letter is_space
letter-IsLetter v h = ground arith

pad-IsLetter : IsLetter b'='
unfolding IsLetter is_space
pad-IsLetter = (refl, refl)

b64encode-All_letters : (bs : Bytes) → All IsByte bs → All IsLetter (b64encode bs)
unfolding b64encode
b64encode-All_letters [] h = tt
b64encode-All_letters (x ∷ []) h = (
  letter-IsLetter (x / 4) (omega arith),
  (letter-IsLetter (x % 4 * 16) (omega arith), (pad-IsLetter, (pad-IsLetter, tt))),
)
b64encode-All_letters (x ∷ y ∷ []) h = (
  letter-IsLetter (x / 4) (omega arith),
  (
    letter-IsLetter (x % 4 * 16 + y / 16) (omega arith),
    (letter-IsLetter (y % 16 * 4) (omega arith), (pad-IsLetter, tt)),
  ),
)
b64encode-All_letters (x ∷ y ∷ z ∷ rest) (hx, (hy, (hz, h))) = (
  letter-IsLetter (x / 4) (omega arith),
  (
    letter-IsLetter (x % 4 * 16 + y / 16) (omega arith),
    (
      letter-IsLetter (y % 16 * 4 + z / 64) (omega arith),
      (letter-IsLetter (z % 64) (omega arith), b64encode-All_letters rest h),
    ),
  ),
)

no_dot : (s : Str) → All IsLetter s → has_char b'.' s ≡ false
unfolding IsLetter has_char
no_dot [] h = refl
no_dot (c ∷ s) ((e, f), h) = rw f (unfold has_char in no_dot s h)

no_space : (s : Str) → All IsLetter s → All (λ c. is_space c ≡ false) s
unfolding IsLetter
no_space [] h = tt
no_space (c ∷ s) ((e, f), h) = (e, no_space s h)

pub has_char-b64encode : (bs : Bytes) → All IsByte bs → has_char b'.' (b64encode bs) ≡ false
has_char-b64encode bs h = no_dot _ (b64encode-All_letters bs h)

pub b64encode-All_kept : (bs : Bytes) → All IsByte bs → All (λ c. is_space c ≡ false) (b64encode bs)
b64encode-All_kept bs h = no_space _ (b64encode-All_letters bs h)
