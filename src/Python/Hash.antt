-- ===== src/Python/Hash.antt =====
-- Hexadecimal text of a digest. The hash itself is a parameter wherever it is used.
use tamga_python.Prelude.{
  ℕ, ◌+◌, ◌-◌, ◌*◌, ◌/◌, ◌%◌, ◌<◌, ◌≡◌, refl, Bool, true, ◌&&◌, ◌||◌, [], ◌∷◌, arith, ltb, leb,
  if◌then◌else◌, length, All,
}
use tamga_python.Python.Str.{Str, Bytes}

hex_digit : ℕ → ℕ
hex_digit v = if ltb v 10 then b'0' + v else b'a' + (v - 10)

-- bs.hex()
unfoldable pub hex : Bytes → Str
unfolding hex_digit
hex [] = []
hex (x ∷ xs) = hex_digit (x / 16) ∷ hex_digit (x % 16) ∷ hex xs

abbrev pub is_hex_digit : ℕ → Bool
is_hex_digit c = (leb b'0' c && leb c b'9') || (leb b'a' c && leb c b'f')

pub length-hex : (bs : Bytes) → length (hex bs) ≡ 2 * length bs
unfolding hex
length-hex [] = refl
length-hex (x ∷ xs) = omega (arith, length-hex xs)

pub hex-All-hex_digit :
    (bs : Bytes) → All (λ x. x < 256) bs → All (λ c. is_hex_digit c ≡ true) (hex bs)
unfolding hex
hex-All-hex_digit [] h = tt
hex-All-hex_digit (x ∷ xs) (hx, h) = (ground arith, (ground arith, hex-All-hex_digit xs h))
