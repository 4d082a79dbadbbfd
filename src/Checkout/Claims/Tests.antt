-- ===== src/Checkout/Claims/Tests.antt =====
-- Claims at and beyond their expiry.
use tamga_python.Prelude.{◌≡◌, refl, some}
use tamga_python.Python.Int.{pos, ◌-ℤ◌}
use tamga_python.Python.Str.{codes}
use tamga_python.Python.Exc.{ok, err, license_file_expired}
use tamga_python.Checkout.Claims.{LicenseFileClaims, license_file, enforce_expiry}
use tamga_python.Checkout.Claims.Expiry.{IsCurrent, enforce_expiry_iff}

abbrev sample_claims : LicenseFileClaims
sample_claims = record { iat = pos 10; jti = codes "j"; kid = codes "k"; exp = some (pos 100) }

-- The last second of the tolerance.
current : enforce_expiry license_file sample_claims (some (pos 160)) (pos 0) ≡ ok tt
unfolding enforce_expiry ◌-ℤ◌
current = refl

expired :
    enforce_expiry license_file sample_claims (some (pos 161)) (pos 0)
    ≡ err (license_file_expired (pos 100))
unfolding enforce_expiry ◌-ℤ◌
expired = refl

enforce_expiry_iff_example : IsCurrent sample_claims (pos 160)
enforce_expiry_iff_example =
    (enforce_expiry_iff license_file sample_claims (some (pos 160)) (pos 0)).0 current
