-- ===== src/Checkout/Envelope.antt =====
-- checkout/_envelope.py: the PEM envelope of both offline files, and strict base64.
pub mod Strict
pub mod Roundtrip
mod Tests
use tamga_python.Prelude.{
  ℕ, ◌+◌, ◌-◌, ◌*◌, ◌%◌, ◌≡◌, refl, Bool, true, false, not, ◌&&◌, Option, none, some, List, [], ◌∷◌,
  ◌++◌, ltb, if◌then◌else◌, length, take, drop, replicate,
}
use tamga_python.Python.Str.{Str, Bytes, codes, starts_with, ends_with, strip, is_space}
use tamga_python.Python.Base64.{b64decode}
use tamga_python.Python.Json.{Json, Fields, get, as_dict, as_str}
use tamga_python.Python.Exc.{
  Exc, Result, ok, err, ◌>>=◌, ◌>>◌, guard, or_value_error, value_error, json_decode_error,
}

abbrev pub max_certificate_length : ℕ
max_certificate_length = 1024 * 1024

-- except json.JSONDecodeError: raise ValueError
unfoldable pub json_value {ℓ} : {A : Type ℓ} → Result A → Result A
json_value (err json_decode_error) = err value_error
json_value r = r

pub record Envelope : Type 0 where
  pub enc : Str
  pub sig : Bytes
  pub alg : Str

-- the members of the certificate; each must be a text, and `sig` base64
unfoldable pub members : Fields → Result Envelope
members cert = do
  raw_enc ← or_value_error (get cert (codes "enc"))
  raw_sig ← or_value_error (get cert (codes "sig"))
  raw_alg ← or_value_error (get cert (codes "alg"))
  enc ← or_value_error (as_str raw_enc)
  alg ← or_value_error (as_str raw_alg)
  sig_text ← or_value_error (as_str raw_sig)
  sig ← or_value_error (b64decode sig_text)
  ok (record { enc = enc; sig = sig; alg = alg })

unfoldable pub pem_body : Str → Str → Str → Result Str
pem_body stripped header footer = do
  guard (not (ltb max_certificate_length (length stripped))) value_error
  guard (starts_with stripped header && ends_with stripped footer) value_error
  guard (not (ltb (length stripped) (length header + length footer))) value_error
  ok (
      strip is_space
        (take (length stripped - length footer - length header) (drop (length header) stripped)))

pub parse_certificate_envelope : (Bytes → Result Json) → Str → Str → Str → Result Envelope
unfolding members pem_body or_value_error json_value as_dict
parse_certificate_envelope json_loads certificate header footer = do
  body ← pem_body (strip is_space certificate) header footer
  cert_json_bytes ← or_value_error (b64decode body)
  cert ← json_value (json_loads cert_json_bytes)
  fields ← or_value_error (as_dict cert)
  members fields

-- "=" * (-len(value) % 4)
unfoldable pub padding_of : Str → Str
padding_of value = replicate ((4 - length value % 4) % 4) b'='

unfoldable pub b64decode_strict : Str → Result Bytes
unfolding padding_of or_value_error b64decode
b64decode_strict value = or_value_error (b64decode (value ++ padding_of value))
