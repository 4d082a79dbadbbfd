-- ===== src/Errors/Tests.antt =====
-- Error bodies and the errors that are made of them.
use tamga_python.Prelude.{◌≡◌, refl, none, some, []}
use tamga_python.Python.Int.{pos}
use tamga_python.Python.Str.{Bytes, codes, str_eq}
use tamga_python.Python.Json.{Json, null, str, arr, obj, nil, cons, Fields, end, field, get_or}
use tamga_python.Python.Exc.{Result, ok}
use tamga_python.Errors.{fingerprint_taken, TamgaError, parse_error_envelope, or_empty}
use tamga_python.Errors.Envelope.{Classed, parse_error_envelope-class}
use tamga_python.Errors.Total.{Readable, envelope, parse_error_envelope-total}

abbrev sample_error : Fields
sample_error = field (codes "code") (str (codes "FINGERPRINT_TAKEN")) end

abbrev sample_loads : Bytes → Result Json
sample_loads bytes = ok (obj (field (codes "errors") (arr (cons (obj sample_error) nil)) end))

abbrev taken : TamgaError
taken = record {
  class = fingerprint_taken;
  status = 409;
  code = str (codes "FINGERPRINT_TAKEN");
  detail = str [];
  pointer = null;
  meta = none;
  retry_after = none;
}

conflicts : parse_error_envelope sample_loads 409 (codes "{}") none ≡ ok taken
unfolding parse_error_envelope str_eq
conflicts = refl

sample-Readable : Readable (sample_loads (codes "{}"))
unfolding get_or str_eq or_empty
sample-Readable =
    envelope (field (codes "errors") (arr (cons (obj sample_error) nil)) end) sample_error end nil
      (codes "FINGERPRINT_TAKEN") refl refl refl refl

parse_error_envelope-class_example :
    (taken.status ≡ 409) × Classed 409 taken.code none taken.class taken.retry_after
parse_error_envelope-class_example =
    parse_error_envelope-class sample_loads 409 (codes "{}") none taken conflicts

parse_error_envelope-total_example :
    (e : TamgaError) × (parse_error_envelope sample_loads 429 (codes "{}") (some (pos 5)) ≡ ok e)
parse_error_envelope-total_example =
    parse_error_envelope-total sample_loads 429 (codes "{}") (some (pos 5)) sample-Readable
