-- ===== src/Checkout/Envelope/Tests.antt =====
-- Certificates that are parsed.
use tamga_python.Prelude.{◌≡◌, refl, arith}
use tamga_python.Python.Str.{Str, Bytes, codes, lstrip, rstrip, is_space, str_eq}
use tamga_python.Python.Base64.{b64encode}
use tamga_python.Python.Json.{Json, str, obj, Fields, end, field, get}
use tamga_python.Python.Exc.{Result, ok}
use tamga_python.Checkout.Envelope.{Envelope, parse_certificate_envelope}
use tamga_python.Checkout.Envelope.Roundtrip.{
  IsMarker, Layout, IsLayout, certificate, HasMembers, parse_certificate_envelope-certificate,
}

abbrev begin_marker : Str
begin_marker = codes "-----BEGIN LICENSE FILE-----"

abbrev end_marker : Str
end_marker = codes "-----END LICENSE FILE-----"

begin_marker-IsMarker : IsMarker begin_marker
unfolding lstrip rstrip is_space
begin_marker-IsMarker = record { first = λ s. refl; last = refl; occupied = refl }

end_marker-IsMarker : IsMarker end_marker
unfolding lstrip rstrip is_space
end_marker-IsMarker = record { first = λ s. refl; last = refl; occupied = refl }

abbrev sample_layout : Layout
sample_layout = record {
  before = codes " ";
  after_header = codes "\n";
  before_footer = codes "\n";
  after = codes "\n";
  header = begin_marker;
  footer = end_marker;
}

sample_layout-IsLayout : IsLayout sample_layout
unfolding is_space
sample_layout-IsLayout = record {
  marked_start = begin_marker-IsMarker;
  marked_end = end_marker-IsMarker;
  spaces_before = (refl, tt);
  spaces_after_header = (refl, tt);
  spaces_before_footer = (refl, tt);
  spaces_after = (refl, tt);
}

abbrev sample_fields : Fields
sample_fields =
    field (codes "enc") (str (codes "cA==")) (
      field (codes "sig") (str (b64encode (codes "s"))) (field (codes "alg") (str (codes "a")) end))

abbrev sample_envelope : Envelope
sample_envelope = record { enc = codes "cA=="; sig = codes "s"; alg = codes "a" }

sample_fields-HasMembers : HasMembers sample_fields sample_envelope
unfolding get str_eq
sample_fields-HasMembers = record { enc = refl; sig = refl; alg = refl; bytes = (omega arith, tt) }

abbrev sample_loads : Bytes → Result Json
sample_loads bytes = ok (obj sample_fields)

parse_certificate_envelope-certificate_example :
    parse_certificate_envelope sample_loads
      (certificate sample_layout (b64encode (codes "p")))
      begin_marker
      end_marker
    ≡ ok sample_envelope
unfolding b64encode
parse_certificate_envelope-certificate_example =
    parse_certificate_envelope-certificate sample_layout sample_loads (codes "p") sample_fields
      sample_envelope sample_layout-IsLayout (omega arith, tt) (omega arith) refl
      sample_fields-HasMembers
