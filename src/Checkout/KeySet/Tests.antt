-- ===== src/Checkout/KeySet/Tests.antt =====
-- Key sets that accept and reject a file.
use mathlib.Core.List.{Memᴰ}
use tamga_python.Prelude.{◌≡◌, ◌≢◌, refl, ◌⊎◌, Bool, false, Option, some, [], ◌∷◌, All}
use tamga_python.Python.Str.{Str, Bytes, codes, str_eq}
use tamga_python.Python.Exc.{Exc, Result, ok, err, unknown_signing_key}
use tamga_python.Models.SigningKey.{SigningKey, computed_kid, is_ed25519, public_key_bytes, key_id}
use tamga_python.Checkout.Samples.{sample_runtime, sample_key, sample_key_set, sample_public_key}
use tamga_python.Checkout.KeySet.{
  unbackfilled_account_key_id, kids, usable_keys, resolve_signing_key, is_usable, find,
}
use tamga_python.Checkout.KeySet.Resolve.{
  Verifies, NoneVerifies, RaisedAt, resolve_signing_key_sound, resolve_signing_key_complete,
}
use tamga_python.Checkout.KeySet.Rejection.{Names, resolve_signing_key-unknown}

abbrev accepts_sample : Bytes → Result Bool
accepts_sample bs = ok (str_eq bs sample_public_key)

abbrev accepts_nothing : Bytes → Result Bool
accepts_nothing bs = ok false

abbrev claims : Str → Unit {0} → Result (Option Str)
claims kid u = ok (some kid)

abbrev sha256 : Bytes → Bytes
sha256 = sample_runtime.sha256

resolves :
    resolve_signing_key sha256 sample_key_set accepts_sample (claims (codes "other"))
    ≡ ok (sample_key, sample_public_key)
unfolding resolve_signing_key usable_keys is_usable is_ed25519 public_key_bytes
resolves = refl

sample-Verifies : Verifies accepts_sample sample_key sample_public_key
unfolding is_ed25519 public_key_bytes
sample-Verifies = record { algorithm = refl; decoded = refl; passed = refl }

unknown :
    resolve_signing_key sha256 sample_key_set accepts_nothing (claims (codes "other"))
    ≡ err (unknown_signing_key (codes "other") (codes "k" ∷ []))
unfolding resolve_signing_key usable_keys is_usable is_ed25519 public_key_bytes find computed_kid
    key_id kids
unknown = refl

resolve_signing_key_sound_example :
    Memᴰ sample_key sample_key_set.keys × Verifies accepts_sample sample_key sample_public_key
resolve_signing_key_sound_example =
    resolve_signing_key_sound sha256 sample_key_set accepts_sample (claims (codes "other"))
      sample_key sample_public_key resolves

resolve_signing_key_complete_example :
    ((found : SigningKey × Bytes) × (resolve_signing_key sha256 sample_key_set accepts_sample
          (claims (codes "other"))
        ≡ ok found))
    ⊎ ((e : Exc) × RaisedAt accepts_sample sample_key_set.keys e
        × (resolve_signing_key sha256 sample_key_set accepts_sample (claims (codes "other"))
            ≡ err e))
resolve_signing_key_complete_example =
    resolve_signing_key_complete sha256 sample_key_set accepts_sample (claims (codes "other"))
      sample_key sample_public_key (Memᴰ.head refl) sample-Verifies

resolve_signing_key-unknown_example :
    (◌≡◌ {A = Option Str} (some (codes "other")) (some (codes "other")))
    × All (λ key. ¬ Names sha256 (codes "other") key) sample_key_set.keys
    × NoneVerifies accepts_nothing sample_key_set.keys
    × (codes "other" ≢ unbackfilled_account_key_id)
    × ((codes "k" ∷ []) ≡ kids (usable_keys sample_key_set))
resolve_signing_key-unknown_example =
    resolve_signing_key-unknown sha256 sample_key_set accepts_nothing (claims (codes "other"))
      (some (codes "other")) (codes "other") (codes "k" ∷ []) (λ bs. tt) refl unknown
