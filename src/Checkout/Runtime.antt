-- ===== src/Checkout/Runtime.antt =====
-- What the offline files are verified with that is not the SDK's: the `cryptography` package, the
-- hash, `json.loads`, `str` of a value that is no text, and the clock.
use tamga_python.Prelude.{◌≡◌, ◌⊎◌}
use tamga_python.Python.Int.{ℤ}
use tamga_python.Python.Str.{Str, Bytes}
use tamga_python.Python.Json.{Json}
use tamga_python.Python.Exc.{Exc, Result, Raises, json_decode_error, unicode_error}
use tamga_python.Crypto.{Cryptography}

pub record Runtime : Type 0 where
  pub cryptography : Cryptography
  pub sha256 : Bytes → Bytes
  pub json_loads : Bytes → Result Json
  pub repr : Json → Str
  -- int(datetime.now(timezone.utc).timestamp())
  pub clock : ℤ

-- The errors of `json.loads` on bytes.
abbrev pub IsJsonError : Exc → Type 0
IsJsonError e = (e ≡ json_decode_error) ⊎ (e ≡ unicode_error)

-- `json.loads` raises nothing but these, as it is documented.
abbrev pub LoadsJson : Runtime → Type 0
LoadsJson rt = (bytes : Bytes) → Raises IsJsonError (rt.json_loads bytes)
