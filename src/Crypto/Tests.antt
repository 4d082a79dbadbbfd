-- ===== src/Crypto/Tests.antt =====
-- Signatures that are accepted.
use tamga_python.Prelude.{◌≡◌, refl, true, ◌∷◌, ◌++◌}
use tamga_python.Python.Str.{Bytes, codes, str_eq}
use tamga_python.Python.Exc.{ok}
use tamga_python.Crypto.{
  verify_pkcs1v15, verify_pss, verify_p256, load_rsa_public_key, load_ec_public_key,
}
use tamga_python.Checkout.Samples.{sample_cryptography}

-- A point of 65 bytes, the first of them 4.
abbrev sample_point : Bytes
sample_point = 4 ∷ codes "0123456789abcdef0123456789abcdef0123456789abcdef0123456789abcdef"

signed_rsa : verify_pkcs1v15 sample_cryptography (codes "k") (codes "m") (codes "km") ≡ ok true
unfolding verify_pkcs1v15 load_rsa_public_key str_eq
signed_rsa = refl

signed_pss : verify_pss sample_cryptography (codes "k") (codes "m") (codes "km") ≡ ok true
unfolding verify_pss load_rsa_public_key str_eq
signed_pss = refl

signed_p256 :
    verify_p256 sample_cryptography sample_point (codes "m") (sample_point ++ codes "m") ≡ ok true
unfolding verify_p256 load_ec_public_key str_eq
signed_p256 = refl
