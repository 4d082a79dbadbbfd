-- ===== src/Models/SigningKey.antt =====
-- models/signing_key.py and `key_id` of crypto/ed25519.py: one published signing key.
use tamga_python.Prelude.{
  ℕ, ◌+◌, Bool, ◌&&◌, Option, none, some, map, leb, ◌==◌, if◌then◌else◌, length, take,
}
use tamga_python.Python.Int.{ℤ}
use tamga_python.Python.Str.{Str, Bytes, codes, str_eq, utf8, is_encodable}
use tamga_python.Python.Hash.{hex}
use tamga_python.Python.Base64.{b64decode}
use tamga_python.Python.Exc.{Result, ok, ◌>>=◌, ◌>>◌, guard, unicode_error}

abbrev pub ed25519_algorithm : Str
ed25519_algorithm = codes "ed25519"

abbrev pub active_status : Str
active_status = codes "active"

abbrev pub retired_status : Str
retired_status = codes "retired"

abbrev pub ed25519_public_key_length : ℕ
ed25519_public_key_length = 32

-- The instants `created` and `retired` are kept as microseconds since the epoch.
pub record SigningKey : Type 0 where
  pub kid : Str
  pub public_key : Str
  pub algorithm : Str
  pub status : Str
  pub created : Option ℤ
  pub retired : Option ℤ

-- `str.lower` where it gives a letter of ASCII: on the capitals, and on the Kelvin sign. Any other
-- character becomes none of the texts that are compared with it.
lower_char : ℕ → ℕ
lower_char c = if leb b'A' c && leb c b'Z' then c + 32 else if c == 0x212a then b'k' else c

unfoldable pub lower : Str → Str
unfolding lower_char
lower s = map lower_char s

-- `none` for a key that is not standard base64 of exactly 32 bytes
unfoldable pub sized : Option Bytes → Option Bytes
sized none = none
sized (some decoded) = if length decoded == ed25519_public_key_length then some decoded else none

unfoldable pub public_key_bytes : SigningKey → Option Bytes
unfolding sized b64decode
public_key_bytes key = sized (b64decode key.public_key)

unfoldable pub is_ed25519 : SigningKey → Bool
unfolding lower str_eq
is_ed25519 key = str_eq (lower key.algorithm) ed25519_algorithm

unfoldable pub is_retired : SigningKey → Bool
unfolding lower str_eq
is_retired key = str_eq (lower key.status) retired_status

-- `sha256` is `hashlib.sha256(...).digest()`
module _ (sha256 : Bytes → Bytes) where
  -- `str.encode("utf-8")` refuses a surrogate
  unfoldable pub key_id : Str → Result Str
  unfolding utf8 is_encodable hex
  key_id public_key_base64 = do
    guard (is_encodable public_key_base64) unicode_error
    ok (hex (take 8 (sha256 (utf8 public_key_base64))))

  unfoldable pub ed25519 : Str → Str → Result SigningKey
  ed25519 public_key status = do
    kid ← key_id public_key
    ok (record {
      kid = kid;
      public_key = public_key;
      algorithm = ed25519_algorithm;
      status = status;
      created = none;
      retired = none;
    })

  unfoldable pub computed_kid : SigningKey → Result Str
  computed_kid key = key_id key.public_key

  unfoldable pub kid_is_self_consistent : SigningKey → Result Bool
  kid_is_self_consistent key = do computed ← computed_kid key; ok (str_eq computed key.kid)
