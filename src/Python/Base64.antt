-- ===== src/Python/Base64.antt =====
-- The `base64` module: `b64encode`, and `b64decode` with `validate=True`.
pub mod Roundtrip
use tamga_python.Prelude.{
  ℕ, ◌+◌, ◌-◌, ◌*◌, ◌/◌, ◌%◌, Bool, ◌&&◌, Option, none, some, List, [], ◌∷◌, ltb, leb, ◌==◌,
  if◌then◌else◌,
}
use tamga_python.Python.Str.{Str, Bytes}

-- The value of a character of the standard alphabet.
unfoldable pub sextet : ℕ → Option ℕ
sextet c =
    if leb b'A' c && leb c b'Z'
    then some (c - b'A')
    else if leb b'a' c && leb c b'z'
    then some (c - b'a' + 26)
    else if leb b'0' c && leb c b'9'
    then some (c - b'0' + 52)
    else if c == b'+'
    then some 62
    else if c == b'/'
    then some 63
    else none

unfoldable pub letter : ℕ → ℕ
letter v =
    if ltb v 26
    then b'A' + v
    else if ltb v 52
    then b'a' + (v - 26)
    else if ltb v 62
    then b'0' + (v - 52)
    else if v == 62
    then b'+'
    else b'/'

infixl 5 ◌>>=◌
abbrev ◌>>=◌ {ℓ κ} : {A : Type ℓ} {B : Type κ} → Option A → (A → Option B) → Option B
none >>= f = none
some a >>= f = f a

abbrev pub three : ℕ → ℕ → ℕ → ℕ → Bytes → Bytes
three a b c d rest = (a * 4 + b / 16) ∷ (b % 16 * 16 + c / 4) ∷ (c % 4 * 64 + d) ∷ rest

-- The last four characters, of which one or two may be padding.
unfoldable pub last_quad : ℕ → ℕ → ℕ → ℕ → Option Bytes
unfolding sextet
last_quad p q r s = do
  a ← sextet p
  b ← sextet q
  if (r == b'=') && (s == b'=') then some ((a * 4 + b / 16) ∷ []) else do
    c ← sextet r
    if s == b'='
        then some ((a * 4 + b / 16) ∷ (b % 16 * 16 + c / 4) ∷ [])
        else do d ← sextet s; some (three a b c d [])

unfoldable pub quad : ℕ → ℕ → ℕ → ℕ → Bytes → Option Bytes
unfolding sextet
quad p q r s rest = do
  a ← sextet p
  b ← sextet q
  c ← sextet r
  d ← sextet s
  some (three a b c d rest)

-- base64.b64decode(s, validate=True): `none` where it raises `binascii.Error` or `ValueError`.
unfoldable pub b64decode : Str → Option Bytes
unfolding last_quad quad
b64decode [] = some []
b64decode (p ∷ q ∷ r ∷ s ∷ []) = last_quad p q r s
b64decode (p ∷ q ∷ r ∷ s ∷ t ∷ more) = do rest ← b64decode (t ∷ more); quad p q r s rest
b64decode _ = none

-- base64.b64encode(bs), without and with its padding.
unfoldable pub b64encode_unpadded : Bytes → Str
unfolding letter
b64encode_unpadded [] = []
b64encode_unpadded (x ∷ []) = letter (x / 4) ∷ letter (x % 4 * 16) ∷ []
b64encode_unpadded (x ∷ y ∷ []) =
    letter (x / 4) ∷ letter (x % 4 * 16 + y / 16) ∷ letter (y % 16 * 4) ∷ []
b64encode_unpadded (x ∷ y ∷ z ∷ rest) =
    letter (x / 4)
    ∷ letter (x % 4 * 16 + y / 16)
    ∷ letter (y % 16 * 4 + z / 64)
    ∷ letter (z % 64)
    ∷ b64encode_unpadded rest

unfoldable pub b64encode : Bytes → Str
unfolding letter
b64encode [] = []
b64encode (x ∷ []) = letter (x / 4) ∷ letter (x % 4 * 16) ∷ b'=' ∷ b'=' ∷ []
b64encode (x ∷ y ∷ []) =
    letter (x / 4) ∷ letter (x % 4 * 16 + y / 16) ∷ letter (y % 16 * 4) ∷ b'=' ∷ []
b64encode (x ∷ y ∷ z ∷ rest) =
    letter (x / 4)
    ∷ letter (x % 4 * 16 + y / 16)
    ∷ letter (y % 16 * 4 + z / 64)
    ∷ letter (z % 64)
    ∷ b64encode rest
