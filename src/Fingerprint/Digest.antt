-- ===== src/Fingerprint/Digest.antt =====
-- The fingerprint that is sent to the server: the hash of the canonical form.
use tamga_python.Prelude.{
  ◌<◌, ◌≡◌, refl, sym, ◌∙◌, true, ◌&&◌, List, [], ◌∷◌, ◌++◌, map, arith, all, length, All,
}
use tamga_python.Prelude.Sorting.{sort-perm, all-perm}
use tamga_python.Python.Str.{Str, Bytes, is_encodable, utf8, join}
use tamga_python.Python.Str.Order.{utf8_leb}
use tamga_python.Python.Hash.{hex, is_hex_digit, length-hex, hex-All-hex_digit}
use tamga_python.Python.Exc.{ok, >>=-eq-ok}
use tamga_python.Fingerprint.{
  Part, FingerprintComponents, mapping, pairs, canonical_form, machine_fingerprint,
}
use tamga_python.Fingerprint.Accepted.{encode, canonical_text, canonical_form_lem}

is_encodable-append : (s t : Str) → is_encodable (s ++ t) ≡ (is_encodable s && is_encodable t)
unfolding is_encodable
is_encodable-append [] t = refl
is_encodable-append (c ∷ s) t = ground (arith, is_encodable-append s t)

is_encodable-join :
    (sep p : Str) (ps : List Str)
    → is_encodable sep ≡ true
    → all is_encodable (p ∷ ps) ≡ true
    → is_encodable (join sep (p ∷ ps)) ≡ true
unfolding join
is_encodable-join sep p [] h k = ground arith
is_encodable-join sep p (q ∷ ps) h k =
    rw
      (
        is_encodable-append p (sep ++ join sep (q ∷ ps)),
        is_encodable-append sep (join sep (q ∷ ps)),
        h,
        is_encodable-join sep q ps h (ground arith),
      )
      (ground arith)

canonical_text-encodable :
    (encoded : List Str)
    → all is_encodable encoded ≡ true
    → is_encodable (canonical_text encoded) ≡ true
canonical_text-encodable encoded h =
    is_encodable-join _ _ _ (unfold is_encodable in refl)
      (unfold is_encodable in all-perm _ (sort-perm utf8_leb encoded) ∙ h)

canonical_form-pairs :
    (c : FingerprintComponents) (ps : List (Part × Part))
    → pairs c ≡ ok ps
    → canonical_form c ≡ canonical_form (mapping ps)
unfolding canonical_form
canonical_form-pairs c ps h = rw h

pairs-eq-ok :
    (c : FingerprintComponents) {s : Str}
    → canonical_form c ≡ ok s
    → (ps : List (Part × Part)) × (pairs c ≡ ok ps)
unfolding canonical_form
pairs-eq-ok c h = let (ps, e, _) = >>=-eq-ok (pairs c) _ h in (ps, e)

mapping-encodable :
    (ps : List (Part × Part)) (s : Str) → canonical_form (mapping ps) ≡ ok s → is_encodable s ≡ true
mapping-encodable ps s h =
    let known : (all is_encodable (map encode ps) ≡ true) × (canonical_text (map encode ps) ≡ s) =
      ground (arith, canonical_form_lem ps) in
    rw (← known.1) (canonical_text-encodable (map encode ps) known.0)

canonical_form-encodable :
    (c : FingerprintComponents) (s : Str) → canonical_form c ≡ ok s → is_encodable s ≡ true
canonical_form-encodable c s h =
    let (ps, e) = pairs-eq-ok c h in mapping-encodable ps s (sym (canonical_form-pairs c ps e) ∙ h)

module _ (sha256 : Bytes → Bytes) where
  -- Components that have a canonical form have a fingerprint, which is the hash of its UTF-8 bytes
  -- in lowercase hexadecimal: where the hash has 32 bytes, 64 digits.
  pub machine_fingerprint-hex :
      (c : FingerprintComponents) (s : Str)
      → canonical_form c ≡ ok s
      → length (sha256 (utf8 s)) ≡ 32
      → All (λ x. x < 256) (sha256 (utf8 s))
      → (fp : Str) × (machine_fingerprint sha256 c ≡ ok fp)
        × (fp ≡ hex (sha256 (utf8 s)))
        × (length fp ≡ 64)
        × All (λ d. is_hex_digit d ≡ true) fp
  unfolding machine_fingerprint
  machine_fingerprint-hex c s h len bytes = (
    hex (sha256 (utf8 s)),
    rw (h, canonical_form-encodable c s h),
    refl,
    omega (arith, length-hex (sha256 (utf8 s))),
    hex-All-hex_digit (sha256 (utf8 s)) bytes,
  )
