-- ===== src/Transport/Tests.antt =====
-- Requests and their parts.
use tamga_python.Prelude.{arith, ℕ, ◌≡◌, refl, Bool, ◌&&◌, none, some, [], ◌∷◌, ◌++◌, leb}
use tamga_python.Python.Str.{codes, is_space, starts_with}
use tamga_python.Python.Exc.{ok}
use tamga_python.Transport.{
  is_slash, build_root_url, build_base_url, sanitize_tamga_version, AuthTransport, basic,
  apply_auth,
}
use tamga_python.Transport.Url.{IsBareHost, build_root_url-spelled, build_base_url-root}
use tamga_python.Transport.Version.{IsVersion, sanitize_tamga_version-IsVersion}
use tamga_python.Python.Base64.{b64encode}

api-IsBareHost : IsBareHost (codes "api.tamga.sh") (codes "/")
unfolding is_space is_slash starts_with
api-IsBareHost = record {
  no_spaces = ground arith;
  no_slashes = ground arith;
  only_slashes = (refl, tt);
  no_http = refl;
  no_https = refl;
}

build_root_url-spelled_example :
    (build_root_url (codes " " ++ ((codes "api.tamga.sh" ++ codes "/") ++ codes " "))
      ≡ codes "https://" ++ codes "api.tamga.sh")
    × (build_root_url
          (codes " " ++ ((codes "https://" ++ (codes "api.tamga.sh" ++ codes "/")) ++ codes " "))
        ≡ codes "https://" ++ codes "api.tamga.sh")
    × (build_root_url
          (codes " " ++ ((codes "http://" ++ (codes "api.tamga.sh" ++ codes "/")) ++ codes " "))
        ≡ codes "http://" ++ codes "api.tamga.sh")
unfolding is_space
build_root_url-spelled_example =
    build_root_url-spelled (codes "api.tamga.sh") (codes "/") api-IsBareHost (codes " ") (codes " ")
      (refl, tt) (refl, tt)

build_base_url-root_example :
    build_base_url (codes "api.tamga.sh") (codes "a")
    ≡ build_root_url (codes "api.tamga.sh") ++ (codes "/v1/accounts/" ++ codes "a")
build_base_url-root_example = build_base_url-root (codes "api.tamga.sh") (codes "a")

-- `str.isalnum` of the digits.
abbrev is_digit : ℕ → Bool
is_digit c = leb b'0' c && leb c b'9'

sanitizes : sanitize_tamga_version is_digit (codes "1.0 (2)") ≡ ok (codes "1.02")
unfolding sanitize_tamga_version
sanitizes = refl

sanitize_tamga_version-IsVersion_example :
    IsVersion is_digit (codes "1.02")
    × (sanitize_tamga_version is_digit (codes "1.02") ≡ ok (codes "1.02"))
sanitize_tamga_version-IsVersion_example =
    sanitize_tamga_version-IsVersion is_digit (codes "1.0 (2)") (codes "1.02") sanitizes

abbrev sample_auth : AuthTransport
sample_auth =
    basic (record { email = none; password = none; token = some (codes "t"); license_key = none })

authenticates :
    apply_auth [] [] sample_auth ≡ ok ((codes "Authorization", codes "Basic dDo=") ∷ [], [])
unfolding apply_auth b64encode
authenticates = refl
