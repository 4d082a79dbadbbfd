-- ===== src/Proof/Verdict.antt =====
-- What a proof of the server is checked against.
use tamga_python.Prelude.{◌≡◌, refl, ap, [], ◌∷◌, ◌++◌, All, append_assoc}
use tamga_python.Python.Str.{Str, Bytes, codes, starts_with, join}
use tamga_python.Python.Str.Order.{bytes_leb}
use tamga_python.Python.Base64.{b64encode}
use tamga_python.Python.Base64.Roundtrip.{IsByte, b64decode-b64encode}
use tamga_python.Python.Json.{Float, Json, obj, Fields}
use tamga_python.Python.Dumps.{quote, object_text, dumps, escape_all, escape}
use tamga_python.Prelude.Sorting.{sort, insert}
use tamga_python.Python.Exc.{ok, ◌>>=◌, or_value_error}
use tamga_python.Crypto.{Cryptography, encode_utf8, verify_pkcs1v15}
use tamga_python.Proof.{proof_version_prefix, build_proof_payload, ProofResult, parse, verify}

-- The signed text of these values, its members in the order of the alphabet.
abbrev pub spelled : Str → Str → Str → Str → Str
spelled account_id machine_id fingerprint dataset =
    codes "{\"account\":{\"id\":"
    ++ (account_id
        ++ (codes "},\"dataset\":"
            ++ (dataset
                ++ (codes ",\"machine\":{\"fingerprint\":"
                    ++ (fingerprint ++ (codes ",\"id\":" ++ (machine_id ++ codes "}}")))))))

object_text-spelled :
    (account_id machine_id fingerprint dataset : Str)
    → object_text (
        (codes "account", object_text ((codes "id", account_id) ∷ []))
        ∷ (
          codes "machine",
          object_text ((codes "id", machine_id) ∷ (codes "fingerprint", fingerprint) ∷ []),
        )
        ∷ (codes "dataset", dataset)
        ∷ [])
      ≡ spelled account_id machine_id fingerprint dataset
unfolding object_text quote sort insert bytes_leb join escape_all escape
object_text-spelled account_id machine_id fingerprint dataset = simp (append_assoc) refl

module _ (float_text : Float → Str) (account_id machine_id : Str) (fingerprint : Json)
    (dataset : Fields) where
  build_proof_payload-spelled :
      build_proof_payload float_text account_id machine_id fingerprint dataset
      ≡ encode_utf8 (
          spelled
            (quote account_id)
            (quote machine_id)
            (dumps float_text fingerprint)
            (dumps float_text (obj dataset)))
  unfolding build_proof_payload dumps
  build_proof_payload-spelled = ap encode_utf8 (
      object_text-spelled (quote account_id) (quote machine_id) (dumps float_text fingerprint)
        (dumps float_text (obj dataset)))

-- What the server returns for a signature: the prefix and its base64.
abbrev pub proof_text : Bytes → Str
proof_text signature = proof_version_prefix ++ b64encode signature

-- A proof that the server writes for a signature is parsed, whatever values the caller supplies,
-- and verifying what was parsed checks that signature, under the given key, over the UTF-8 bytes
-- of the signed text: those values as JSON without spaces, `dataset` before `machine` and
-- `fingerprint` before `id`.
pub parse-verify :
    (float_text : Float → Str) (c : Cryptography) (public_key signature : Bytes)
    (account_id machine_id : Str) (fingerprint : Json) (dataset : Fields)
    → All IsByte signature
    → (proof : ProofResult) × (parse
          (proof_text signature)
          account_id
          machine_id
          fingerprint
          dataset
        ≡ ok proof)
      × (verify float_text c proof public_key
          ≡ encode_utf8 (
              spelled
                (quote account_id)
                (quote machine_id)
                (dumps float_text fingerprint)
                (dumps float_text (obj dataset)))
            >>= λ payload. verify_pkcs1v15 c public_key payload signature)
unfolding parse verify or_value_error starts_with
parse-verify float_text c public_key signature account_id machine_id fingerprint dataset h = (
  record {
    raw = proof_text signature;
    signature = signature;
    account_id = account_id;
    machine_id = machine_id;
    fingerprint = fingerprint;
    dataset = dataset;
  },
  rw (b64decode-b64encode signature h),
  rw (build_proof_payload-spelled float_text account_id machine_id fingerprint dataset),
)
