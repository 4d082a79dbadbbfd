-- ===== src/Fingerprint/Tests.antt =====
-- Canonical forms of small components.
use mathlib.Core.List.{Perm, Permᴰ}
use tamga_python.Prelude.{◌≡◌, refl, [], ◌∷◌, map, all, replicate, if◌then◌else◌}
use tamga_python.Python.Str.{Str, Bytes, codes, is_encodable, strip, str_eq}
use tamga_python.Python.Exc.{ok, err, fingerprint_component_error, unicode_error}
use tamga_python.Fingerprint.{Part, text, mapping, canonical_form}
use tamga_python.Fingerprint.Accepted.{
  trimmed, encode, canonical_text, is_accepted, canonical_form_lem, distinct,
}
use tamga_python.Fingerprint.Canonical.{canonical_form-perm}
use tamga_python.Fingerprint.Separators.{canonical_form-injective}
use tamga_python.Prelude.Sorting.{sort}
use tamga_python.Python.Str.Order.{utf8_leb}

abbrev cpu : Part × Part
cpu = (text (codes "cpu"), text (codes "x"))

abbrev disk : Part × Part
disk = (text (codes "disk"), text (codes "y"))

abbrev sample_text : Str
sample_text = canonical_text (map encode (cpu ∷ disk ∷ []))

one_form : canonical_form (mapping (cpu ∷ disk ∷ [])) ≡ ok sample_text
unfolding strip distinct str_eq is_encodable
one_form = canonical_form_lem (cpu ∷ disk ∷ [])

other_form : canonical_form (mapping (disk ∷ cpu ∷ [])) ≡ ok sample_text
unfolding strip distinct str_eq is_encodable sort utf8_leb
other_form = canonical_form_lem (disk ∷ cpu ∷ [])

-- The first label that is repeated is refused.
repeated : canonical_form (mapping (cpu ∷ cpu ∷ [])) ≡ err fingerprint_component_error
unfolding strip distinct str_eq
repeated = canonical_form_lem (cpu ∷ cpu ∷ [])

canonical_form_lem_example : canonical_form (mapping (disk ∷ cpu ∷ [])) ≡ (
    if is_accepted (disk ∷ cpu ∷ [])
    then if all is_encodable (map encode (disk ∷ cpu ∷ []))
      then ok (canonical_text (map encode (disk ∷ cpu ∷ [])))
      else err unicode_error
    else err fingerprint_component_error)
canonical_form_lem_example = canonical_form_lem (disk ∷ cpu ∷ [])

swapped : Perm (cpu ∷ disk ∷ []) (disk ∷ cpu ∷ [])
swapped = ∣ Permᴰ.swap refl refl ∣₁

canonical_form-perm_example :
    canonical_form (mapping (cpu ∷ disk ∷ [])) ≡ canonical_form (mapping (disk ∷ cpu ∷ []))
canonical_form-perm_example = canonical_form-perm (cpu ∷ disk ∷ []) (disk ∷ cpu ∷ []) swapped

canonical_form-injective_example :
    Perm (map trimmed (cpu ∷ disk ∷ [])) (map trimmed (disk ∷ cpu ∷ []))
canonical_form-injective_example =
    canonical_form-injective (cpu ∷ disk ∷ []) (disk ∷ cpu ∷ []) sample_text one_form other_form

abbrev zeroes : Bytes → Bytes
zeroes bytes = replicate 32 0
