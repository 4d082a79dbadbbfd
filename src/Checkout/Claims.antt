-- ===== src/Checkout/Claims.antt =====
-- The signed claims that both offline files carry (checkout/license_file.py).
pub mod Expiry
mod Tests
use tamga_python.Prelude.{
  ◌≡◌, refl, ℕ, Bool, true, false, not, ◌&&◌, Option, none, some, List, [], ◌∷◌, if◌then◌else◌,
}
use tamga_python.Python.Int.{ℤ, pos, ◌-ℤ◌, ltb_ℤ}
use tamga_python.Python.Str.{Str, codes}
use tamga_python.Python.Json.{Json, null, Fields, get, subscript, as_dict, to_int, to_str}
use tamga_python.Python.Exc.{
  Exc, Result, ok, err, ◌>>=◌, ◌>>◌, guard, value_error, license_file_expired, machine_file_expired,
  or_value_error,
}

pub record LicenseFileClaims : Type 0 where
  pub iat : ℤ
  pub jti : Str
  pub kid : Str
  pub exp : Option ℤ

abbrev pub clock_skew_tolerance_seconds : ℤ
clock_skew_tolerance_seconds = pos 60

-- int(meta["exp"]) if meta.get("exp") is not None else None
unfoldable pub exp_claim : Option Json → Result (Option ℤ)
exp_claim none = ok none
exp_claim (some null) = ok none
exp_claim (some v) = do exp ← to_int v; ok (some exp)

unfoldable pub claims_from : (Json → Str) → Fields → Result LicenseFileClaims
unfolding exp_claim
claims_from repr meta = do
  raw_iat ← subscript meta (codes "iat")
  iat ← to_int raw_iat
  jti ← subscript meta (codes "jti")
  kid ← subscript meta (codes "kid")
  exp ← exp_claim (get meta (codes "exp"))
  ok (record { iat = iat; jti = to_str repr jti; kid = to_str repr kid; exp = exp })

-- except (KeyError, TypeError, ValueError, OverflowError): raise ValueError. The claims raise no
-- other error.
unfoldable pub malformed : Result LicenseFileClaims → Result LicenseFileClaims
malformed (ok claims) = ok claims
malformed (err e) = err value_error

unfoldable pub parse_claims : (Json → Str) → Json → Result LicenseFileClaims
unfolding claims_from malformed or_value_error as_dict get
parse_claims repr parsed = do
  payload ← or_value_error (as_dict parsed)
  raw_meta ← or_value_error (get payload (codes "meta"))
  meta ← or_value_error (as_dict raw_meta)
  malformed (claims_from repr meta)

-- Which exception reports an expired file.
pub data FileKind : Type 0 where
  license_file machine_file : FileKind

abbrev pub expired_error : FileKind → ℤ → Exc
expired_error license_file exp = license_file_expired exp
expired_error machine_file exp = machine_file_expired exp

abbrev pub reference : Option ℤ → ℤ → ℤ
reference (some now) clock = now
reference none clock = clock

unfoldable pub enforce_expiry : FileKind → LicenseFileClaims → Option ℤ → ℤ → Result (Unit {0})
enforce_expiry kind claims now clock = elim (claims.exp) [
  | none ↦ ok tt
  | some exp ↦
      guard (not (ltb_ℤ exp (reference now clock -ℤ clock_skew_tolerance_seconds)))
        (expired_error kind exp)
]
