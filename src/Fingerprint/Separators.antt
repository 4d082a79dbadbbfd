-- ===== src/Fingerprint/Separators.antt =====
-- The canonical form determines the components: its separators cannot be forged.
use mathlib.Core.List.{Perm}
use mathlib.Core.List.Perm
use tamga_python.Prelude.{
  ℕ, ◌≡◌, refl, sym, ◌∙◌, ap, Bool, true, ◌&&◌, not, List, [], ◌∷◌, ◌++◌, map, arith, ◌==◌,
  if◌then◌else◌, all,
}
use tamga_python.Prelude.Sorting.{sort, sort-perm, all-perm}
use tamga_python.Python.Str.{Str, strip, join}
use tamga_python.Python.Str.Order.{utf8_leb}
use tamga_python.Python.Exc.{ok}
use tamga_python.Fingerprint.{
  Part, text, other, mapping, ascii_whitespace, fingerprint_domain, fingerprint_separator,
  canonical_form,
}
use tamga_python.Fingerprint.Accepted.{
  raw_text, label_ok, value_ok, pair_ok, trimmed, encode, label_char_ok, value_char_ok,
  canonical_text, canonical_form_lem,
}

abbrev free_of : ℕ → Str → Bool
free_of c s = all (λ d. not (d == c)) s

-- The text before the first `c`, and the text behind it.
cut : ℕ → Str → Str × Str
cut c [] = ([], [])
cut c (d ∷ s) = let (before, after) = cut c s in if d == c then ([], s) else (d ∷ before, after)

-- The parts of a text between the occurrences of `c`.
split_on : ℕ → Str → List Str
split_on c [] = [] ∷ []
split_on c (d ∷ s) = let rest = split_on c s in if d == c then [] ∷ rest else extend d rest
  where
    extend : ℕ → List Str → List Str
    extend d [] = []
    extend d (p ∷ ps) = (d ∷ p) ∷ ps

cut-component : (c : ℕ) (p s : Str) → free_of c p ≡ true → cut c (p ++ c ∷ s) ≡ (p, s)
unfolding cut
cut-component c [] s h = ground arith
cut-component c (d ∷ p) s h = ground (arith, cut-component c p s)

split_on-last : (c : ℕ) (p : Str) → free_of c p ≡ true → split_on c p ≡ p ∷ []
unfolding split_on
split_on-last c [] h = refl
split_on-last c (d ∷ p) h = ground (arith, split_on-last c p)

split_on-part :
    (c : ℕ) (p s : Str) → free_of c p ≡ true → split_on c (p ++ c ∷ s) ≡ p ∷ split_on c s
unfolding split_on
split_on-part c [] s h = ground arith
split_on-part c (d ∷ p) s h = ground (arith, split_on-part c p s)

split_on-join :
    (c : ℕ) (p : Str) (ps : List Str)
    → all (free_of c) (p ∷ ps) ≡ true
    → split_on c (join (c ∷ []) (p ∷ ps)) ≡ p ∷ ps
unfolding join
split_on-join c p [] h = split_on-last c p (ground arith)
split_on-join c p (q ∷ ps) h =
    split_on-part c p (join (c ∷ []) (q ∷ ps)) (ground arith)
    ∙ ap (λ l. p ∷ l) (split_on-join c q ps (ground arith))

all-imp {ℓ} :
    {A : Type ℓ} (p q : A → Bool) (xs : List A)
    → ((x : A) → p x ≡ true → q x ≡ true)
    → all p xs ≡ true
    → all q xs ≡ true
all-imp p q [] h k = refl
all-imp p q (x ∷ xs) h k = rw (h x (ground arith), all-imp p q xs h (ground arith))

all-append {ℓ} :
    {A : Type ℓ} (p : A → Bool) (xs ys : List A) → all p (xs ++ ys) ≡ (all p xs && all p ys)
all-append p [] ys = refl
all-append p (x ∷ xs) ys = ground (arith, all-append p xs ys)

label-chars : (p : Part) → label_ok p ≡ true → all label_char_ok (raw_text p) ≡ true
label-chars (text s) h = ground arith
label-chars other h = refl

value-chars :
    (p : Part) → value_ok p ≡ true → all value_char_ok (strip ascii_whitespace (raw_text p)) ≡ true
value-chars (text s) h = h
value-chars other h = cc

module _ (q : Part × Part) (h : pair_ok q ≡ true) where
  cut-encode : cut b'=' (encode q) ≡ trimmed q
  cut-encode = cut-component b'=' (raw_text q.0) _ (
      all-imp label_char_ok _ (raw_text q.0) (λ c k. ground arith) (label-chars q.0 (ground arith)))

  encode-free : free_of fingerprint_separator (encode q) ≡ true
  encode-free =
      all-append _ (raw_text q.0) _
      ∙ rw (
        all-imp label_char_ok (λ d. not (d == fingerprint_separator)) (raw_text q.0)
            (λ c k. ground arith) (label-chars q.0 (ground arith)),
        all-imp value_char_ok (λ d. not (d == fingerprint_separator))
            (strip ascii_whitespace (raw_text q.1)) (λ c k. ground arith)
            (value-chars q.1 (ground arith)),
      )

map-cut-encode :
    (ps : List (Part × Part))
    → all pair_ok ps ≡ true
    → map (cut b'=') (map encode ps) ≡ map trimmed ps
map-cut-encode [] h = refl
map-cut-encode (q ∷ ps) h = rw (cut-encode q (ground arith), map-cut-encode ps (ground arith))

all_free-encode :
    (ps : List (Part × Part))
    → all pair_ok ps ≡ true
    → all (free_of fingerprint_separator) (map encode ps) ≡ true
all_free-encode [] h = refl
all_free-encode (q ∷ ps) h = rw (encode-free q (ground arith), all_free-encode ps (ground arith))

-- The parts of a canonical text are the domain and the sorted components.
split_on-canonical_text :
    (encoded : List Str)
    → all (free_of fingerprint_separator) encoded ≡ true
    → split_on fingerprint_separator (canonical_text encoded)
      ≡ fingerprint_domain ∷ sort utf8_leb encoded
split_on-canonical_text encoded h =
    split_on-join fingerprint_separator fingerprint_domain (sort utf8_leb encoded)
      (all-perm _ (sort-perm utf8_leb encoded) ∙ h)

perm_of_canonical_text :
    (xs ys : List Str)
    → all (free_of fingerprint_separator) xs ≡ true
    → all (free_of fingerprint_separator) ys ≡ true
    → canonical_text xs ≡ canonical_text ys
    → Perm xs ys
perm_of_canonical_text xs ys h k e =
    let same : fingerprint_domain ∷ sort utf8_leb xs ≡ fingerprint_domain ∷ sort utf8_leb ys =
      sym (split_on-canonical_text xs h)
      ∙ ap (split_on fingerprint_separator) e
      ∙ split_on-canonical_text ys k in
    let sorted : sort utf8_leb xs ≡ sort utf8_leb ys = cc in
    Perm.trans (Perm.symm (sort-perm utf8_leb xs)) (rw sorted (sort-perm utf8_leb ys))

accepted_of_ok :
    (ps : List (Part × Part)) {s : Str}
    → canonical_form (mapping ps) ≡ ok s
    → (all pair_ok ps ≡ true) × (canonical_text (map encode ps) ≡ s)
accepted_of_ok ps h = ground (arith, canonical_form_lem ps)

-- Two mappings that have the same canonical form have the same labels with the same trimmed
-- values, up to their order.
pub canonical_form-injective :
    (xs ys : List (Part × Part)) (s : Str)
    → canonical_form (mapping xs) ≡ ok s
    → canonical_form (mapping ys) ≡ ok s
    → Perm (map trimmed xs) (map trimmed ys)
canonical_form-injective xs ys s h k =
    let (good_x, text_x) = accepted_of_ok xs h in
    let (good_y, text_y) = accepted_of_ok ys k in
    rw (← map-cut-encode xs good_x, ← map-cut-encode ys good_y)
      (Perm.map (cut b'=') (
        perm_of_canonical_text _ _ (all_free-encode xs good_x) (all_free-encode ys good_y)
          (text_x ∙ sym text_y)))
