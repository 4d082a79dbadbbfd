-- ===== src/Checkout/Envelope/Roundtrip.antt =====
-- Parsing a certificate as a server writes it: the markers around base64 of a JSON object.
use tamga_python.Prelude.{
  ◌+◌, ◌-◌, ◌≡◌, refl, ◌∙◌, ◌≤◌, true, false, some, [], ◌∷◌, ◌++◌, arith, ltb, leb, length,
  is_empty, All, append_assoc, length-append, take-append, drop-append,
}
use tamga_python.Python.Str.{
  Str, Bytes, codes, starts_with, ends_with, strip, lstrip, rstrip, is_space, str_eq_self,
}
use tamga_python.Python.Str.Strip.{strip-padded, strip-kept, rstrip-append}
use tamga_python.Python.Base64.{b64encode}
use tamga_python.Python.Base64.Roundtrip.{IsByte, b64decode-b64encode}
use tamga_python.Python.Json.{Json, str, obj, Fields, get, as_dict, as_str}
use tamga_python.Python.Exc.{Result, ok, or_value_error}
use tamga_python.Checkout.Envelope.{
  max_certificate_length, json_value, Envelope, members, pem_body, parse_certificate_envelope,
}
use tamga_python.Checkout.Envelope.Strict.{b64encode-All_kept}

starts_with-append : (p s : Str) → starts_with (p ++ s) p ≡ true
unfolding starts_with
starts_with-append [] s = refl
starts_with-append (c ∷ p) s = ground (arith, starts_with-append p s)

ends_with-append : (s p : Str) → ends_with (s ++ p) p ≡ true
unfolding ends_with
ends_with-append s p =
    let fits : leb (length p) (length (s ++ p)) ≡ true = ground (arith, length-append s p) in
    let cut : length (s ++ p) - length p ≡ length s = omega (arith, length-append s p) in
    rw (fits, cut, drop-append s p) (str_eq_self p)

-- A marker: its ends are kept by `strip`.
pub record IsMarker (marker : Str) : Type 0 where
  pub first : (s : Str) → lstrip is_space (marker ++ s) ≡ marker ++ s
  pub last : rstrip is_space marker ≡ marker
  pub occupied : is_empty marker ≡ false

-- White space around a certificate and around its body.
abbrev pub IsSpaces : Str → Type 0
IsSpaces s = All (λ c. is_space c ≡ true) s

-- A certificate: spaces, the header, spaces, the body, spaces, the footer, spaces.
pub record Layout : Type 0 where
  pub before : Str
  pub after_header : Str
  pub before_footer : Str
  pub after : Str
  pub header : Str
  pub footer : Str

pub record IsLayout (l : Layout) : Type 0 where
  pub marked_start : IsMarker l.header
  pub marked_end : IsMarker l.footer
  pub spaces_before : IsSpaces l.before
  pub spaces_after_header : IsSpaces l.after_header
  pub spaces_before_footer : IsSpaces l.before_footer
  pub spaces_after : IsSpaces l.after

abbrev pub middle : Layout → Str → Str
middle l body = l.after_header ++ (body ++ l.before_footer)

abbrev pub core : Layout → Str → Str
core l body = l.header ++ (middle l body ++ l.footer)

abbrev pub certificate : Layout → Str → Str
certificate l body = l.before ++ (core l body ++ l.after)

module _ (l : Layout) (h : IsLayout l) (body : Str) where
  strip-core : strip is_space (core l body) ≡ core l body
  unfolding strip
  strip-core = rw (h.marked_start.first (middle l body ++ l.footer)) (
      rw (← append_assoc l.header (middle l body) l.footer) (
        rstrip-append is_space (l.header ++ middle l body) l.footer h.marked_end.last
          h.marked_end.occupied))

  strip-certificate : strip is_space (certificate l body) ≡ core l body
  strip-certificate =
      strip-padded is_space l.before l.after (core l body) h.spaces_before h.spaces_after
      ∙ strip-core

  pem_body-core :
      length (core l body) ≤ max_certificate_length
      → All (λ c. is_space c ≡ false) body
      → pem_body (core l body) l.header l.footer ≡ ok body
  unfolding pem_body
  pem_body-core short kept =
      let all_len : length (core l body)
          ≡ length l.header + length (middle l body) + length l.footer =
        omega (
          arith,
          length-append l.header (middle l body ++ l.footer),
          length-append (middle l body) l.footer,
        ) in
      let fits : ltb max_certificate_length (length (core l body)) ≡ false = ground arith in
      let disjoint : ltb (length (core l body)) (length l.header + length l.footer) ≡ false =
        ground arith in
      let ends : ends_with (core l body) l.footer ≡ true =
        rw (← append_assoc l.header (middle l body) l.footer)
          (ends_with-append (l.header ++ middle l body) l.footer) in
      let size : length (core l body) - length l.footer - length l.header ≡ length (middle l body) =
        omega arith in
      rw (
        fits,
        starts_with-append l.header (middle l body ++ l.footer),
        ends,
        disjoint,
        size,
        drop-append l.header (middle l body ++ l.footer),
        take-append (middle l body) l.footer,
        strip-padded is_space l.after_header l.before_footer body h.spaces_after_header
            h.spaces_before_footer,
        strip-kept is_space body kept,
      )

-- The members that a certificate's JSON object must have for an envelope.
pub record HasMembers (fields : Fields) (envelope : Envelope) : Type 0 where
  pub enc : get fields (codes "enc") ≡ some (str envelope.enc)
  pub sig : get fields (codes "sig") ≡ some (str (b64encode envelope.sig))
  pub alg : get fields (codes "alg") ≡ some (str envelope.alg)
  pub bytes : All IsByte envelope.sig

members-HasMembers :
    (fields : Fields) (envelope : Envelope)
    → HasMembers fields envelope
    → members fields ≡ ok envelope
unfolding members or_value_error as_str
members-HasMembers fields envelope m =
    rw (m.enc, m.sig, m.alg, b64decode-b64encode envelope.sig m.bytes)

-- Where `json.loads` reads the payload as an object with a text for each of its members, parsing a
-- certificate that holds the payload between the markers, whatever white space stands around it
-- and around its body, returns the envelope of that object, if the certificate is not longer than
-- one megabyte.
pub parse_certificate_envelope-certificate :
    (l : Layout) (json_loads : Bytes → Result Json) (payload : Bytes) (fields : Fields)
    (envelope : Envelope)
    → IsLayout l
    → All IsByte payload
    → length (core l (b64encode payload)) ≤ max_certificate_length
    → json_loads payload ≡ ok (obj fields)
    → HasMembers fields envelope
    → parse_certificate_envelope json_loads (certificate l (b64encode payload)) l.header l.footer
      ≡ ok envelope
unfolding parse_certificate_envelope or_value_error json_value as_dict
parse_certificate_envelope-certificate l json_loads payload fields envelope h bytes short loads m =
    rw (
      strip-certificate l h (b64encode payload),
      pem_body-core l h (b64encode payload) short (b64encode-All_kept payload bytes),
      b64decode-b64encode payload bytes,
      loads,
      members-HasMembers fields envelope m,
    )
