-- ===== src/Proof.antt =====
-- proof.py: offline proofs of a machine. A UUID is its text; `float_text` is how `json.dumps`
-- writes a float. A fingerprint may be any value of JSON, since the server's is not looked at.
pub mod Verdict
mod Tests
use tamga_python.Prelude.{Bool, not, [], ◌∷◌, drop, length}
use tamga_python.Python.Str.{Str, Bytes, codes, starts_with}
use tamga_python.Python.Base64.{b64decode}
use tamga_python.Python.Json.{Float, Json, str, obj, Fields, end, field}
use tamga_python.Python.Dumps.{dumps}
use tamga_python.Python.Exc.{Result, ok, ◌>>=◌, ◌>>◌, guard, value_error, or_value_error}
use tamga_python.Crypto.{Cryptography, encode_utf8, verify_pkcs1v15}

abbrev pub proof_version_prefix : Str
proof_version_prefix = codes "v1x0."

pub build_proof_payload : (Float → Str) → Str → Str → Json → Fields → Result Bytes
unfolding dumps encode_utf8
build_proof_payload float_text account_id machine_id fingerprint dataset = encode_utf8 (
    dumps float_text (
      obj (
        field (codes "account") (obj (field (codes "id") (str account_id) end)) (
          field (codes "machine")
            (obj
              (field (codes "id") (str machine_id) (field (codes "fingerprint") fingerprint end)))
            (field (codes "dataset") (obj dataset) end)))))

pub record ProofResult : Type 0 where
  pub raw : Str
  pub signature : Bytes
  pub account_id : Str
  pub machine_id : Str
  pub fingerprint : Json
  pub dataset : Fields

-- ProofResult.parse
unfoldable pub parse : Str → Str → Str → Json → Fields → Result ProofResult
unfolding starts_with b64decode or_value_error
parse raw account_id machine_id fingerprint dataset = do
  guard (starts_with raw proof_version_prefix) value_error
  signature ← or_value_error (b64decode (drop (length proof_version_prefix) raw))
  ok (record {
    raw = raw;
    signature = signature;
    account_id = account_id;
    machine_id = machine_id;
    fingerprint = fingerprint;
    dataset = dataset;
  })

-- ProofResult.verify
pub verify : (Float → Str) → Cryptography → ProofResult → Bytes → Result Bool
verify float_text c proof public_key = do
  payload ←
      build_proof_payload float_text proof.account_id proof.machine_id proof.fingerprint
        proof.dataset
  verify_pkcs1v15 c public_key payload proof.signature
