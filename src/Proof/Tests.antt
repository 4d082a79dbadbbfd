-- ===== src/Proof/Tests.antt =====
-- The bytes of a proof, and a proof that is accepted.
use tamga_python.Prelude.{◌≡◌, refl, true, [], arith}
use tamga_python.Python.Int.{pos, negsuc}
use tamga_python.Python.Str.{Str, codes, starts_with, join}
use tamga_python.Python.Str.Order.{bytes_leb}
use tamga_python.Prelude.Sorting.{sort, insert}
use tamga_python.Python.Json.{Float, bool, int, str, arr, obj, nil, cons, Fields, end, field}
use tamga_python.Python.Dumps.{dumps, quote, digits_onto, int_text, escape, escape_all, object_text}
use tamga_python.Python.Exc.{ok, err, ◌>>=◌, value_error}
use tamga_python.Crypto.{encode_utf8, verify_pkcs1v15}
use tamga_python.Checkout.Samples.{sample_cryptography}
use tamga_python.Proof.{ProofResult, parse, verify}
use tamga_python.Proof.Verdict.{spelled, proof_text, parse-verify}

-- No sample holds a float.
abbrev no_float : Float → Str
no_float x = []

abbrev sample_dataset : Fields
sample_dataset =
    field (codes "seats") (arr (cons (int (pos 120)) (cons (int (negsuc 6)) nil)))
      (field (codes "name") (str (codes "a\"b")) (field (codes "eval") (bool true) end))

dumps_sample :
    dumps no_float (obj sample_dataset)
    ≡ codes "{\"eval\":true,\"name\":\"a\\\"b\",\"seats\":[120,-7]}"
unfolding dumps quote int_text digits_onto object_text escape_all escape join sort insert bytes_leb
dumps_sample = refl

refuses_other_version :
    parse (codes "v2x0.AAAA") (codes "a") (codes "m") (str (codes "f")) sample_dataset
    ≡ err value_error
unfolding parse starts_with
refuses_other_version = refl

parse-verify_example :
    (proof : ProofResult) × (parse
        (proof_text (codes "signature"))
        (codes "a")
        (codes "m")
        (str (codes "f"))
        sample_dataset
      ≡ ok proof)
    × (verify no_float sample_cryptography proof (codes "key")
        ≡ encode_utf8 (
            spelled
              (quote (codes "a"))
              (quote (codes "m"))
              (dumps no_float (str (codes "f")))
              (dumps no_float (obj sample_dataset)))
          >>= λ payload.
              verify_pkcs1v15 sample_cryptography (codes "key") payload (codes "signature"))
parse-verify_example =
    parse-verify no_float sample_cryptography (codes "key") (codes "signature") (codes "a")
      (codes "m") (str (codes "f")) sample_dataset (ground arith)
