-- ===== src/Python/Str/Order.antt =====
-- The order of texts by their UTF-8 bytes, by which the SDK sorts.
use tamga_python.Prelude.{
  ℕ, ◌≡◌, refl, ◌⊎◌, inl, inr, Bool, true, false, [], ◌∷◌, ◌++◌, arith, ltb, ◌==◌, if◌then◌else◌,
}
use tamga_python.Prelude.Sorting.{IsLinear}
use tamga_python.Python.Str.{Str, Bytes, utf8_char, utf8}

-- a <= b on bytes
unfoldable pub bytes_leb : Bytes → Bytes → Bool
bytes_leb [] ys = true
bytes_leb (x ∷ xs) [] = false
bytes_leb (x ∷ xs) (y ∷ ys) = if x == y then bytes_leb xs ys else ltb x y

bytes_leb-total : (a b : Bytes) → (bytes_leb a b ≡ true) ⊎ (bytes_leb b a ≡ true)
unfolding bytes_leb
bytes_leb-total [] b = inl refl
bytes_leb-total (x ∷ xs) [] = inr refl
bytes_leb-total (x ∷ xs) (y ∷ ys) = ground (arith, bytes_leb-total xs ys)

bytes_leb_trans :
    (a b c : Bytes) → bytes_leb a b ≡ true → bytes_leb b c ≡ true → bytes_leb a c ≡ true
unfolding bytes_leb
bytes_leb_trans [] b c h k = refl
bytes_leb_trans (x ∷ xs) [] c h k = cc
bytes_leb_trans (x ∷ xs) (y ∷ ys) [] h k = cc
bytes_leb_trans (x ∷ xs) (y ∷ ys) (z ∷ zs) h k = ground (arith, bytes_leb_trans xs ys zs)

bytes_leb_antisymm : (a b : Bytes) → bytes_leb a b ≡ true → bytes_leb b a ≡ true → a ≡ b
unfolding bytes_leb
bytes_leb_antisymm [] [] h k = refl
bytes_leb_antisymm [] (y ∷ ys) h k = cc
bytes_leb_antisymm (x ∷ xs) [] h k = cc
bytes_leb_antisymm (x ∷ xs) (y ∷ ys) h k = ground (arith, bytes_leb_antisymm xs ys)

-- No character's bytes begin those of another: UTF-8 is a prefix code.
utf8_char-prefix : (c d : ℕ) (r s : Bytes) → utf8_char c ++ r ≡ utf8_char d ++ s → (c ≡ d) × (r ≡ s)
unfolding utf8_char
utf8_char-prefix c d r s h = ground arith

-- The encoder begins with a byte, so only the empty text has no bytes.
utf8_char-ne-nil : (c : ℕ) (r : Bytes) → ¬ (utf8_char c ++ r ≡ [])
unfolding utf8_char
utf8_char-ne-nil c r h = ground arith

-- Texts with the same UTF-8 bytes are the same.
pub utf8-injective : (s t : Str) → utf8 s ≡ utf8 t → s ≡ t
unfolding utf8
utf8-injective [] [] h = refl
utf8-injective [] (d ∷ t) h = absurd (utf8_char-ne-nil d (utf8 t) (cc))
utf8-injective (c ∷ s) [] h = absurd (utf8_char-ne-nil c (utf8 s) h)
utf8-injective (c ∷ s) (d ∷ t) h =
    let (same, rest) = utf8_char-prefix c d (utf8 s) (utf8 t) h in cc (utf8-injective s t rest)

-- a.encode() <= b.encode()
unfoldable pub utf8_leb : Str → Str → Bool
unfolding utf8 bytes_leb
utf8_leb s t = bytes_leb (utf8 s) (utf8 t)

pub utf8_leb-IsLinear : IsLinear utf8_leb
unfolding utf8_leb
utf8_leb-IsLinear = record {
  total = λ a b. bytes_leb-total (utf8 a) (utf8 b);
  trans = λ a b c. bytes_leb_trans (utf8 a) (utf8 b) (utf8 c);
  antisymm = λ a b h k. utf8-injective a b (bytes_leb_antisymm (utf8 a) (utf8 b) h k);
}
