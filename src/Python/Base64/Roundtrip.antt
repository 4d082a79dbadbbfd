-- ===== src/Python/Base64/Roundtrip.antt =====
-- Decoding what was encoded.
use tamga_python.Prelude.{
  ℕ, ◌+◌, ◌*◌, ◌/◌, ◌%◌, ◌<◌, ◌≡◌, refl, ◌∙◌, ap, false, Option, some, [], ◌∷◌, arith, ◌==◌, All,
}
use tamga_python.Python.Str.{Str, Bytes}
use tamga_python.Python.Base64.{sextet, letter, last_quad, quad, three, b64decode, b64encode, ◌>>=◌}

abbrev pub IsByte : ℕ → Type 0
IsByte x = x < 256

sextet-letter : (v : ℕ) → v < 64 → sextet (letter v) ≡ some v
unfolding sextet letter
sextet-letter v h = ground arith

letter-ne-pad : (v : ℕ) → v < 64 → (letter v == b'=') ≡ false
unfolding letter
letter-ne-pad v h = ground arith

module _ (a b c d : ℕ) (ha : a < 64) (hb : b < 64) (hc : c < 64) (hd : d < 64) where
  quad-letters :
      (rest : Bytes)
      → quad (letter a) (letter b) (letter c) (letter d) rest ≡ some (three a b c d rest)
  unfolding quad
  quad-letters rest =
      rw (sextet-letter a ha, sextet-letter b hb, sextet-letter c hc, sextet-letter d hd)

  last_quad-letters :
      last_quad (letter a) (letter b) (letter c) (letter d) ≡ some (three a b c d [])
  unfolding last_quad
  last_quad-letters = rw (
    sextet-letter a ha,
    sextet-letter b hb,
    letter-ne-pad c hc,
    sextet-letter c hc,
    letter-ne-pad d hd,
    sextet-letter d hd,
  )

last_quad-one :
    (a b : ℕ)
    → a < 64
    → b < 64
    → last_quad (letter a) (letter b) b'=' b'=' ≡ some ((a * 4 + b / 16) ∷ [])
unfolding last_quad
last_quad-one a b ha hb = rw (sextet-letter a ha, sextet-letter b hb)

last_quad-two :
    (a b c : ℕ)
    → a < 64
    → b < 64
    → c < 64
    → last_quad (letter a) (letter b) (letter c) b'='
      ≡ some ((a * 4 + b / 16) ∷ (b % 16 * 16 + c / 4) ∷ [])
unfolding last_quad sextet
last_quad-two a b c ha hb hc =
    rw (sextet-letter a ha, sextet-letter b hb, letter-ne-pad c hc, sextet-letter c hc)

three-bytes :
    (x y z : ℕ) (rest : Bytes)
    → IsByte x
    → IsByte y
    → IsByte z
    → three (x / 4) (x % 4 * 16 + y / 16) (y % 16 * 4 + z / 64) (z % 64) rest ≡ x ∷ y ∷ z ∷ rest
three-bytes x y z rest hx hy hz = ground arith

b64decode-quad :
    (a b c d : ℕ) (more : Str) (rest : Bytes)
    → a < 64
    → b < 64
    → c < 64
    → d < 64
    → b64decode more ≡ some rest
    → b64decode (letter a ∷ letter b ∷ letter c ∷ letter d ∷ more) ≡ some (three a b c d rest)
unfolding b64decode
b64decode-quad a b c d [] rest ha hb hc hd h =
    last_quad-letters a b c d ha hb hc hd
    ∙ ap (λ (l : Option Bytes). l >>= λ r. some (three a b c d r)) h
b64decode-quad a b c d (t ∷ more) rest ha hb hc hd h = rw h (quad-letters a b c d ha hb hc hd rest)

-- base64.b64decode(base64.b64encode(bs), validate=True) is bs.
pub b64decode-b64encode : (bs : Bytes) → All IsByte bs → b64decode (b64encode bs) ≡ some bs
unfolding b64encode
b64decode-b64encode [] h = unfold b64decode in refl
b64decode-b64encode (x ∷ []) h =
    unfold b64decode in
    last_quad-one (x / 4) (x % 4 * 16) (omega arith) (omega arith) ∙ ap some (ground arith)
b64decode-b64encode (x ∷ y ∷ []) h =
    unfold b64decode in
    last_quad-two (x / 4) (x % 4 * 16 + y / 16) (y % 16 * 4) (omega arith) (omega arith)
      (omega arith)
    ∙ ap some (ground arith)
b64decode-b64encode (x ∷ y ∷ z ∷ rest) (hx, (hy, (hz, h))) =
    b64decode-quad _ _ _ _ _ rest (omega arith) (omega arith) (omega arith) (omega arith)
      (b64decode-b64encode rest h)
    ∙ ap some (three-bytes x y z rest hx hy hz)
