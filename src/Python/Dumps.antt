-- ===== src/Python/Dumps.antt =====
-- `json.dumps(v, sort_keys=True, separators=(",", ":"), ensure_ascii=False)`. How a float is
-- written is a parameter. The keys of an object are distinct, as a dictionary's are.
use tamga_python.Prelude.{
  ℕ, zero, suc, ◌<◌, ◌≡◌, inl, inr, arith, Bool-cases, ◌+◌, ◌/◌, ◌%◌, Bool, true, false, List, [],
  ◌∷◌, ◌++◌, map, ltb, ◌==◌, if◌then◌else◌,
}
use tamga_python.Prelude.Sorting.{sort}
use tamga_python.Python.Int.{ℤ, pos, negsuc}
use tamga_python.Python.Str.{Str, codes, join}
use tamga_python.Python.Str.Order.{bytes_leb}
use tamga_python.Python.Hash.{hex}
use tamga_python.Python.Json.{
  Float, Json, null, bool, int, float, str, arr, obj, Items, nil, cons, Fields, end, field,
}

-- The decimal digits of a number before a text; a number has fewer digits than its successor.
unfoldable pub digits_onto : ℕ → ℕ → Str → Str
digits_onto zero n s = s
digits_onto (suc fuel) n s = elim (ltb n 10) [
  | true ↦ (b'0' + n) ∷ s
  | false ↦ digits_onto fuel (n / 10) ((b'0' + n % 10) ∷ s)
]

-- Any two amounts of fuel above the number write the same digits.
digits_onto_fuel : (f g n : ℕ) (s : Str) → n < f → n < g → digits_onto f n s ≡ digits_onto g n s
unfolding digits_onto
digits_onto_fuel zero g n s h k = absurd (omega arith)
digits_onto_fuel (suc f) zero n s h k = absurd (omega arith)
digits_onto_fuel (suc f) (suc g) n s h k = elim (Bool-cases (ltb n 10)) [
  | inl e ↦ rw (digits_onto, e)
  | inr e ↦ rw (digits_onto, e) (digits_onto_fuel f g (n / 10) _ (ground arith) (ground arith))
]

unfoldable pub int_text : ℤ → Str
unfolding digits_onto
int_text (pos n) = digits_onto (suc n) n []
int_text (negsuc n) = b'-' ∷ digits_onto (suc (suc n)) (suc n) []

-- One character within the quotes.
unfoldable pub escape : ℕ → Str
unfolding hex
escape c =
    if c == 0x22
    then 0x5c ∷ 0x22 ∷ []
    else if c == 0x5c
    then 0x5c ∷ 0x5c ∷ []
    else if c == 0x08
    then 0x5c ∷ b'b' ∷ []
    else if c == 0x0c
    then 0x5c ∷ b'f' ∷ []
    else if c == 0x0a
    then 0x5c ∷ b'n' ∷ []
    else if c == 0x0d
    then 0x5c ∷ b'r' ∷ []
    else if c == 0x09
    then 0x5c ∷ b't' ∷ []
    else if ltb c 0x20
    then 0x5c ∷ b'u' ∷ b'0' ∷ b'0' ∷ hex (c ∷ [])
    else c ∷ []

unfoldable pub escape_all : Str → Str
unfolding escape
escape_all [] = []
escape_all (c ∷ s) = escape c ++ escape_all s

unfoldable pub quote : Str → Str
unfolding escape_all
quote s = 0x22 ∷ escape_all s ++ 0x22 ∷ []

-- A key and its value's text; the order is that of the keys' code points.
abbrev pub key_leb : Str × Str → Str × Str → Bool
key_leb a b = bytes_leb a.0 b.0

abbrev pub member_text : Str × Str → Str
member_text m = quote m.0 ++ b':' ∷ m.1

unfoldable pub object_text : List (Str × Str) → Str
unfolding quote join bytes_leb sort
object_text members = b'{' ∷ join (b',' ∷ []) (map member_text (sort key_leb members)) ++ b'}' ∷ []

unfoldable mutual
  unfolding int_text quote object_text join

  pub dumps : (Float → Str) → Json → Str
  dumps float_text null = codes "null"
  dumps float_text (bool true) = codes "true"
  dumps float_text (bool false) = codes "false"
  dumps float_text (int n) = int_text n
  dumps float_text (float x) = float_text x
  dumps float_text (str s) = quote s
  dumps float_text (arr items) = b'[' ∷ join (b',' ∷ []) (item_texts float_text items) ++ b']' ∷ []
  dumps float_text (obj fields) = object_text (members_of float_text fields)

  pub item_texts : (Float → Str) → Items → List Str
  item_texts float_text nil = []
  item_texts float_text (cons v items) = dumps float_text v ∷ item_texts float_text items

  pub members_of : (Float → Str) → Fields → List (Str × Str)
  members_of float_text end = []
  members_of float_text (field k v fields) = (k, dumps float_text v) ∷ members_of float_text fields
