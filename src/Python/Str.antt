-- ===== src/Python/Str.antt =====
-- Python's `str` as the list of its code points, `bytes` as a list of numbers below 256, and the
-- methods of `str` that the SDK calls.
use Prim.Native.Char.{code}
pub mod Order
pub mod Strip
use tamga_python.Prelude.{
  ℕ, ◌+◌, ◌-◌, ◌/◌, ◌%◌, String, ◌≡◌, refl, ◌↔◌, Bool, true, false, not, ◌&&◌, ◌||◌, List, [], ◌∷◌,
  ◌++◌, any, arith, ltb, leb, ◌==◌, if◌then◌else◌, ==_iff, length, take, drop, all, is_empty,
}

abbrev pub Str : Type 0
Str = List ℕ

abbrev pub Bytes : Type 0
Bytes = List ℕ

-- The code points of a literal.
abbrev pub codes : String → Str
codes String.[] = []
codes (String.◌∷◌ c s) = code c ∷ codes s

-- a == b
unfoldable pub str_eq : Str → Str → Bool
str_eq [] [] = true
str_eq (x ∷ xs) (y ∷ ys) = (x == y) && str_eq xs ys
str_eq _ _ = false

pub str_eq_iff : (a b : Str) → (str_eq a b ≡ true) ↔ (a ≡ b)
unfolding str_eq
str_eq_iff [] [] = ground arith
str_eq_iff (x ∷ xs) (y ∷ ys) = ground (arith, str_eq_iff xs ys)
str_eq_iff [] (y ∷ ys) = ground arith
str_eq_iff (x ∷ xs) [] = ground arith

pub str_eq_self : (a : Str) → str_eq a a ≡ true
str_eq_self a = (str_eq_iff a a).1 refl

pub str_eq-apart : (a b : Str) → str_eq a b ≡ false → ¬ (a ≡ b)
str_eq-apart a b h e = cc ((str_eq_iff a b).1 e)

pub str_eq_comm : (a b : Str) → str_eq a b ≡ str_eq b a
unfolding str_eq
str_eq_comm [] [] = refl
str_eq_comm (x ∷ xs) (y ∷ ys) = ground (arith, str_eq_comm xs ys)
str_eq_comm [] (y ∷ ys) = refl
str_eq_comm (x ∷ xs) [] = refl

-- s.startswith(p)
unfoldable pub starts_with : Str → Str → Bool
starts_with s [] = true
starts_with [] (c ∷ p) = false
starts_with (d ∷ s) (c ∷ p) = (d == c) && starts_with s p

-- s.endswith(p)
unfoldable pub ends_with : Str → Str → Bool
unfolding str_eq
ends_with s p = leb (length p) (length s) && str_eq (drop (length s - length p) s) p

-- s.removeprefix(p)
unfoldable pub remove_prefix : Str → Str → Str
unfolding starts_with
remove_prefix s p = if starts_with s p then drop (length p) s else s

-- s.lstrip(chars), with the set of characters as a test
unfoldable pub lstrip : (ℕ → Bool) → Str → Str
lstrip drops [] = []
lstrip drops (c ∷ s) = if drops c then lstrip drops s else c ∷ s

-- s.rstrip(chars)
unfoldable pub rstrip : (ℕ → Bool) → Str → Str
rstrip drops [] = []
rstrip drops (c ∷ s) =
    let rest = rstrip drops s in if is_empty rest && drops c then [] else c ∷ rest

-- s.strip(chars)
unfoldable pub strip : (ℕ → Bool) → Str → Str
unfolding lstrip rstrip
strip drops s = rstrip drops (lstrip drops s)

-- str.isspace of one character: what a bare `strip()` removes
unfoldable pub is_space : ℕ → Bool
is_space c =
    (leb 9 c && leb c 13)
    || (leb 28 c && leb c 32)
    || (c == 0x85)
    || (c == 0xa0)
    || (c == 0x1680)
    || (leb 0x2000 c && leb c 0x200a)
    || (c == 0x2028)
    || (c == 0x2029)
    || (c == 0x202f)
    || (c == 0x205f)
    || (c == 0x3000)

-- The UTF-8 bytes of one code point; a surrogate is encoded like its neighbours here, and
-- refused by `is_encodable`.
unfoldable pub utf8_char : ℕ → Bytes
utf8_char c =
    if ltb c 0x80
    then c ∷ []
    else if ltb c 0x800
    then (192 + c / 64) ∷ (128 + c % 64) ∷ []
    else if ltb c 0x10000
    then (224 + c / 4096) ∷ (128 + c / 64 % 64) ∷ (128 + c % 64) ∷ []
    else (240 + c / 262144) ∷ (128 + c / 4096 % 64) ∷ (128 + c / 64 % 64) ∷ (128 + c % 64) ∷ []

unfoldable pub utf8 : Str → Bytes
unfolding utf8_char
utf8 [] = []
utf8 (c ∷ s) = utf8_char c ++ utf8 s

unfoldable pub is_surrogate : ℕ → Bool
is_surrogate c = leb 0xd800 c && leb c 0xdfff

unfoldable pub is_encodable : Str → Bool
unfolding is_surrogate
is_encodable s = all (λ c. not (is_surrogate c)) s

unfoldable pub is_ascii : Str → Bool
is_ascii s = all (λ c. ltb c 128) s

-- sep.join(parts)
unfoldable pub join : Str → List Str → Str
join sep [] = []
join sep (p ∷ []) = p
join sep (p ∷ q ∷ ps) = p ++ (sep ++ join sep (q ∷ ps))

-- What stands before a separator and after it, and whether the text has one.
pub record Parts : Type 0 where
  pub before : Str
  pub found : Bool
  pub after : Str

-- s.partition(c): at the first `c`
unfoldable pub partition : ℕ → Str → Parts
partition c [] = record { before = []; found = false; after = [] }
partition c (d ∷ s) =
    let rest = partition c s in
    if d == c
    then record { before = []; found = true; after = s }
    else record { before = d ∷ rest.before; found = rest.found; after = rest.after }

-- s.rpartition(c): at the last `c`
unfoldable pub rpartition : ℕ → Str → Parts
rpartition c [] = record { before = []; found = false; after = [] }
rpartition c (d ∷ s) =
    let rest = rpartition c s in
    if rest.found
    then record { before = d ∷ rest.before; found = true; after = rest.after }
    else if d == c
    then record { before = []; found = true; after = s }
    else record { before = []; found = false; after = d ∷ s }

-- c in s
unfoldable pub has_char : ℕ → Str → Bool
has_char c s = any (λ d. d == c) s
