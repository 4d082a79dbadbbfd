-- ===== src/Client/Account/Tests.antt =====
-- The keys of an account.
use tamga_python.Prelude.{◌≡◌, refl, Bool, Option, none, some, [], ◌∷◌}
use tamga_python.Python.Str.{Str, Bytes, codes, str_eq}
use tamga_python.Python.Json.{str, arr, nil, cons, field, end}
use tamga_python.Python.Exc.{Result, ok}
use tamga_python.Transport.{returned, bearer}
use tamga_python.Models.SigningKey.{is_ed25519, public_key_bytes}
use tamga_python.Models.Resources.{parse_signing_key_resource}
use tamga_python.Checkout.Samples.{sample_runtime, sample_key, sample_key_set, sample_public_key}
use tamga_python.Checkout.KeySet.{resolve_signing_key, usable_keys, is_usable}
use tamga_python.Checkout.KeySet.Resolve.{Verifies}
use tamga_python.Client.Request.{Context}
use tamga_python.Client.Account.{signing_key_set}
use tamga_python.Client.Account.Keys.{Listed, signing_key_set-Listed}
use tamga_python.Client.Samples.{client_of, answer_with, with_id, data_is}

abbrev key_client : Context
key_client = record (client_of (some (bearer (codes "t"))) (λ request. answer_with (0 ∷ []))) {
  json_loads = λ bytes. ok (
      data_is (
        arr (
          cons (with_id (codes "k") (field (codes "publicKey") (str sample_key.public_key) end))
            nil)));
}

abbrev accepts : Bytes → Result Bool
accepts bytes = ok (str_eq bytes sample_public_key)

abbrev unclaimed : Unit {0} → Result (Option Str)
unclaimed u = ok none

fetches : (signing_key_set key_client []).0 ≡ returned sample_key_set
unfolding signing_key_set parse_signing_key_resource
fetches = refl

resolves :
    resolve_signing_key sample_runtime.sha256 sample_key_set accepts unclaimed
    ≡ ok (sample_key, sample_public_key)
unfolding resolve_signing_key usable_keys is_usable is_ed25519 public_key_bytes
resolves = refl

signing_key_set-Listed_example :
    Listed key_client [] sample_key × Verifies accepts sample_key sample_public_key
signing_key_set-Listed_example =
    signing_key_set-Listed key_client sample_runtime.sha256 accepts unclaimed [] sample_key_set
      sample_key sample_public_key fetches resolves
