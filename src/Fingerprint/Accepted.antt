-- ===== src/Fingerprint/Accepted.antt =====
-- An independent description of which components have a canonical form, and of the form.
use tamga_python.Prelude.{
  ℕ, ◌≡◌, refl, Bool, true, false, ◌&&◌, not, List, [], ◌∷◌, map, arith, ltb, leb, ◌==◌,
  if◌then◌else◌, all, is_empty,
}
use tamga_python.Prelude.Sorting.{sort}
use tamga_python.Python.Str.{Str, str_eq_comm, strip, is_encodable, join}
use tamga_python.Python.Str.Order.{utf8_leb}
use tamga_python.Python.Exc.{ok, err, fingerprint_component_error, unicode_error}
use tamga_python.Fingerprint.{
  Part, text, other, mapping, ascii_whitespace, fingerprint_domain, fingerprint_separator,
  component, label_chars, validate_label, value_chars, validate_value, contains, encode_pairs,
  sort_components, canonical_form,
}

abbrev pub raw_text : Part → Str
raw_text (text s) = s
raw_text other = []

-- Printable ASCII without '='.
abbrev pub label_char_ok : ℕ → Bool
label_char_ok c = leb 0x21 c && leb c 0x7e && not (c == b'=')

-- Neither a C0 control nor DEL.
abbrev pub value_char_ok : ℕ → Bool
value_char_ok c = ltb 0x1f c && not (c == 0x7f)

abbrev pub label_ok : Part → Bool
label_ok (text s) = not (is_empty s) && all label_char_ok s
label_ok other = false

abbrev pub value_ok : Part → Bool
value_ok (text s) = all value_char_ok (strip ascii_whitespace s)
value_ok other = false

abbrev pub pair_ok : Part × Part → Bool
pair_ok (label, value) = label_ok label && value_ok value

abbrev pub trimmed : Part × Part → Str × Str
trimmed (label, value) = (raw_text label, strip ascii_whitespace (raw_text value))

abbrev pub label_of : Part × Part → Str
label_of (label, value) = raw_text label

abbrev pub encode : Part × Part → Str
encode (label, value) = component (raw_text label) (strip ascii_whitespace (raw_text value))

-- No text occurs twice.
unfoldable pub distinct : List Str → Bool
unfolding contains
distinct [] = true
distinct (s ∷ ss) = not (contains ss s) && distinct ss

label_chars_lem :
    (s : Str)
    → label_chars s ≡ (if all label_char_ok s then ok tt else err fingerprint_component_error)
unfolding label_chars
label_chars_lem [] = refl
label_chars_lem (c ∷ s) = ground (arith, label_chars_lem s)

value_chars_lem :
    (s : Str)
    → value_chars s ≡ (if all value_char_ok s then ok tt else err fingerprint_component_error)
unfolding value_chars
value_chars_lem [] = refl
value_chars_lem (c ∷ s) = ground (arith, value_chars_lem s)

pub validate_label_lem :
    (p : Part)
    → validate_label p ≡ (if label_ok p then ok (raw_text p) else err fingerprint_component_error)
unfolding validate_label
validate_label_lem other = refl
validate_label_lem (text []) = refl
validate_label_lem (text (c ∷ s)) = rw (label_chars_lem (c ∷ s)) (ground arith)

pub validate_value_lem :
    (p : Part)
    → validate_value p ≡ (
        if value_ok p
        then ok (strip ascii_whitespace (raw_text p))
        else err fingerprint_component_error)
unfolding validate_value
validate_value_lem other = refl
validate_value_lem (text s) = rw (value_chars_lem (strip ascii_whitespace s)) (ground arith)

-- No label of the list is in `seen`, and none occurs twice.
fresh : List Str → List Str → Bool
unfolding distinct
fresh seen ls = all (λ l. not (contains seen l)) ls && distinct ls

all_fresh-cons :
    (seen : List Str) (l : Str) (ls : List Str)
    → all (λ x. not (contains (l ∷ seen) x)) ls
      ≡ (not (contains ls l) && all (λ x. not (contains seen x)) ls)
unfolding contains
all_fresh-cons seen l [] = refl
all_fresh-cons seen l (x ∷ ls) = ground (arith, str_eq_comm l x, all_fresh-cons seen l ls)

fresh-cons :
    (seen : List Str) (l : Str) (ls : List Str)
    → fresh seen (l ∷ ls) ≡ (not (contains seen l) && fresh (l ∷ seen) ls)
unfolding fresh
fresh-cons seen l ls = ground (arith, all_fresh-cons seen l ls)

encode_pairs_lem :
    (seen : List Str) (ps : List (Part × Part))
    → encode_pairs seen ps ≡ (
        if all pair_ok ps && fresh seen (map label_of ps)
        then ok (map encode ps)
        else err fingerprint_component_error)
unfolding encode_pairs
encode_pairs_lem seen [] = unfold fresh in refl
encode_pairs_lem seen ((label, value) ∷ ps) = ground (
  arith,
  validate_label_lem label,
  validate_value_lem value,
  encode_pairs_lem (raw_text label ∷ seen) ps,
  fresh-cons seen (raw_text label) (map label_of ps),
)

fresh-nil : (ls : List Str) → fresh [] ls ≡ distinct ls
unfolding fresh contains
fresh-nil [] = refl
fresh-nil (l ∷ ls) = ground (arith, fresh-nil ls)

abbrev pub canonical_text : List Str → Str
canonical_text encoded =
    join (fingerprint_separator ∷ []) (fingerprint_domain ∷ sort utf8_leb encoded)

-- The mappings that have a canonical form, up to the encoding of their values.
abbrev pub is_accepted : List (Part × Part) → Bool
is_accepted ps = not (is_empty ps) && all pair_ok ps && distinct (map label_of ps)

-- A mapping is refused by a component error unless it has an entry, every label is printable ASCII
-- without '=', no trimmed value holds a control character and no label is repeated; it is refused
-- by an encoding error if a value then holds a surrogate; otherwise the result is the domain and
-- the trimmed components in the order of their UTF-8 bytes, joined by the separator.
pub canonical_form_lem :
    (ps : List (Part × Part))
    → canonical_form (mapping ps) ≡ (
        if is_accepted ps
        then if all is_encodable (map encode ps)
          then ok (canonical_text (map encode ps))
          else err unicode_error
        else err fingerprint_component_error)
unfolding canonical_form sort_components
canonical_form_lem ps = ground (arith, encode_pairs_lem [] ps, fresh-nil (map label_of ps))
