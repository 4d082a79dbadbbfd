-- ===== src/Fingerprint.antt =====
-- fingerprint.py: canonical forms of machine components. A label or value that is no `str` is
-- `other`; a mapping is the list of its items.
pub mod Accepted
pub mod Canonical
pub mod Separators
pub mod Digest
mod Tests
use tamga_python.Prelude.{
  Bool, true, false, ◌&&◌, ◌||◌, not, ℕ, List, [], ◌∷◌, ◌++◌, map, ltb, leb, ◌==◌, all, is_empty,
}
use tamga_python.Prelude.Sorting.{sort}
use tamga_python.Python.Str.{Str, Bytes, codes, str_eq, strip, utf8, is_encodable, join}
use tamga_python.Python.Str.Order.{utf8_leb}
use tamga_python.Python.Hash.{hex}
use tamga_python.Python.Exc.{
  Result, ok, err, ◌>>=◌, ◌>>◌, guard, fingerprint_component_error, unicode_error,
}

abbrev pub fingerprint_domain : Str
fingerprint_domain = codes "tamga-fingerprint-v1"

abbrev pub fingerprint_separator : ℕ
fingerprint_separator = 0x1f

-- " \t\r\n\v\f"
abbrev pub ascii_whitespace : ℕ → Bool
ascii_whitespace c = (c == 0x20) || (leb 9 c && leb c 13)

pub data Part : Type 0 where
  text : Str → Part
  other : Part

-- An entry of an iterable: a `str` or something that cannot be iterated, or the list of its parts.
pub data Item : Type 0 where
  no_pair : Item
  parts : List Part → Item

pub data FingerprintComponents : Type 0 where
  mapping : List (Part × Part) → FingerprintComponents
  iterable : List Item → FingerprintComponents
  not_iterable : FingerprintComponents

-- the loop of `_pairs`
item_pairs : List Item → Result (List (Part × Part))
item_pairs [] = ok []
item_pairs (parts (label ∷ value ∷ []) ∷ items) = do
  rest ← item_pairs items
  ok ((label, value) ∷ rest)
item_pairs (_ ∷ items) = err fingerprint_component_error

pub pairs : FingerprintComponents → Result (List (Part × Part))
unfolding item_pairs
pairs (mapping items) = ok items
pairs (iterable items) = item_pairs items
pairs not_iterable = err fingerprint_component_error

-- the loop of `_validate_label` over the characters
label_chars : Str → Result (Unit {0})
label_chars [] = ok tt
label_chars (c ∷ s) = do
  guard (not (ltb c 0x21 || ltb 0x7e c)) fingerprint_component_error
  guard (not (c == b'=')) fingerprint_component_error
  label_chars s

pub validate_label : Part → Result Str
unfolding label_chars
validate_label other = err fingerprint_component_error
validate_label (text label) = do
  guard (not (is_empty label)) fingerprint_component_error
  label_chars label
  ok label

-- the loop of `_validate_value` over the trimmed characters
value_chars : Str → Result (Unit {0})
value_chars [] = ok tt
value_chars (c ∷ s) = do
  guard (not (leb c 0x1f || c == 0x7f)) fingerprint_component_error
  value_chars s

pub validate_value : Part → Result Str
unfolding value_chars
validate_value other = err fingerprint_component_error
validate_value (text value) = do
  let trimmed = strip ascii_whitespace value
  value_chars trimmed
  ok trimmed

-- label in seen
contains : List Str → Str → Bool
contains [] s = false
contains (x ∷ xs) s = str_eq x s || contains xs s

abbrev component : Str → Str → Str
component label value = label ++ b'=' ∷ value

-- the loop of `canonical_form`; `seen` holds the labels met so far
encode_pairs : List Str → List (Part × Part) → Result (List Str)
unfolding contains
encode_pairs seen [] = ok []
encode_pairs seen ((raw_label, raw_value) ∷ ps) = do
  label ← validate_label raw_label
  guard (not (contains seen label)) fingerprint_component_error
  value ← validate_value raw_value
  rest ← encode_pairs (label ∷ seen) ps
  ok (component label value ∷ rest)

-- `encoded.sort(key=lambda component: component.encode("utf-8"))`: the keys are made first
sort_components : List Str → Result (List Str)
sort_components encoded = do
  guard (all is_encodable encoded) unicode_error
  ok (sort utf8_leb encoded)

pub canonical_form : FingerprintComponents → Result Str
unfolding pairs
canonical_form components = do
  ps ← pairs components
  guard (not (is_empty ps)) fingerprint_component_error
  encoded ← encode_pairs [] ps
  sorted ← sort_components encoded
  ok (join (fingerprint_separator ∷ []) (fingerprint_domain ∷ sorted))

-- `sha256` is `hashlib.sha256(...).digest()`
module _ (sha256 : Bytes → Bytes) where
  pub machine_fingerprint : FingerprintComponents → Result Str
  machine_fingerprint components = do
    canonical ← canonical_form components
    guard (is_encodable canonical) unicode_error
    ok (hex (sha256 (utf8 canonical)))
