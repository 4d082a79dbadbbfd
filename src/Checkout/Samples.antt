-- ===== src/Checkout/Samples.antt =====
-- A small runtime and the parts of files that it accepts, for the tests of the offline files.
use tamga_python.Prelude.{
  refl, inl, inr, none, some, [], ◌∷◌, ◌++◌, if◌then◌else◌, Bool-cases, take,
}
use tamga_python.Python.Int.{pos}
use tamga_python.Python.Str.{Str, Bytes, codes, str_eq}
use tamga_python.Python.Json.{Json, int, str, obj, Fields, end, field}
use tamga_python.Python.Exc.{Result, ok, err, json_decode_error, value_error}
use tamga_python.Crypto.{
  Check, passed, bad_signature, secp256r1, PublicKey, rsa_key, ec_key, Cryptography,
}
use tamga_python.Crypto.Errors.{LoadsKeys}
use tamga_python.Models.SigningKey.{SigningKey}
use tamga_python.Checkout.KeySet.{SigningKeySet}
use tamga_python.Checkout.Runtime.{Runtime, LoadsJson}

-- A signature is the key and the message, one after the other.
abbrev pub sample_check : Bytes → Bytes → Bytes → Check
sample_check key message signature =
    if str_eq signature (key ++ message) then passed else bad_signature

abbrev pub key_bytes : PublicKey → Bytes
key_bytes (rsa_key bits handle) = handle
key_bytes (ec_key curve handle) = handle
key_bytes PublicKey.other_key = []

-- Every key is of 2048 bits or on P-256, and a ciphertext is its own plaintext.
abbrev pub sample_cryptography : Cryptography
sample_cryptography = record {
  load_ed25519 = λ bytes. ok bytes;
  ed25519_check = sample_check;
  load_pem = λ bytes. ok (rsa_key 2048 bytes);
  load_der = λ bytes. err value_error;
  load_point = λ bytes. ok (ec_key secp256r1 bytes);
  pkcs1v15_check = λ key. sample_check (key_bytes key);
  pss_check = λ key. sample_check (key_bytes key);
  ecdsa_check = λ key. sample_check (key_bytes key);
  hkdf = λ salt ikm info. ikm;
  aes_gcm_open = λ key nonce text. some text;
}

abbrev pub sample_meta : Fields
sample_meta = field (codes "iat") (int (pos 10)) (
    field (codes "jti") (str (codes "j"))
      (field (codes "kid") (str (codes "k")) (field (codes "exp") (int (pos 100)) end)))

abbrev pub sample_data : Fields
sample_data =
    field (codes "id") (str (codes "1")) (field (codes "type") (str (codes "licenses")) end)

abbrev pub sample_json : Json
sample_json =
    obj (field (codes "data") (obj sample_data) (field (codes "meta") (obj sample_meta) end))

-- The text of the payload, which `json.loads` reads, and nothing else.
abbrev pub sample_payload : Bytes
sample_payload = codes "p"

abbrev pub sample_loads : Bytes → Result Json
sample_loads bytes = if str_eq bytes sample_payload then ok sample_json else err json_decode_error

abbrev pub sample_runtime : Runtime
sample_runtime = record {
  cryptography = sample_cryptography;
  sha256 = λ bytes. take 32 (bytes ++ codes "................................");
  json_loads = sample_loads;
  repr = λ v. [];
  clock = pos 50;
}

pub sample_cryptography-LoadsKeys : LoadsKeys sample_cryptography
sample_cryptography-LoadsKeys = record {
  raw = λ bytes. tt;
  pem = λ bytes. tt;
  der = λ bytes. inl refl;
  point = λ bytes. tt;
}

pub sample_loads-LoadsJson : LoadsJson sample_runtime
sample_loads-LoadsJson bytes = elim (Bool-cases (str_eq bytes sample_payload)) [
  | inl e ↦ rw e tt
  | inr e ↦ rw e (inl refl)
]

-- base64 of the payload, and its signature under a key
abbrev pub sample_enc : Str
sample_enc = codes "cA=="

abbrev pub sample_public_key : Bytes
sample_public_key = codes "0123456789abcdef0123456789abcdef"

abbrev pub sample_signature : Bytes
sample_signature = sample_public_key ++ sample_enc

-- The key whose bytes these are, in a set of its own.
abbrev pub sample_key : SigningKey
sample_key = record {
  kid = codes "k";
  public_key = codes "MDEyMzQ1Njc4OWFiY2RlZjAxMjM0NTY3ODlhYmNkZWY=";
  algorithm = codes "ed25519";
  status = codes "active";
  created = none;
  retired = none;
}

abbrev pub sample_key_set : SigningKeySet
sample_key_set = record { keys = sample_key ∷ [] }
