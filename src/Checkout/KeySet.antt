-- ===== src/Checkout/KeySet.antt =====
-- checkout/key_set.py: the trusted keys, and the choice of the key that signed a file. A file's
-- check against one key is the argument `verify`; reading its own key id is `unverified_kid`.
pub mod Resolve
pub mod Rejection
pub mod Pinned
mod Tests
use tamga_python.Prelude.{
  ◌≡◌, refl, ℕ, zero, suc, Bool, true, false, not, ◌&&◌, ◌||◌, Option, none, some, List, [], ◌∷◌,
  map, arith, if◌then◌else◌, keep_if, is_empty,
}
use tamga_python.Python.Str.{Str, Bytes, codes, str_eq}
use tamga_python.Python.Exc.{
  Result, ok, err, ◌>>=◌, ◌>>◌, guard, value_error, invalid_signature, no_usable_signing_key,
  unknown_signing_key, signing_key_not_published,
}
use tamga_python.Models.SigningKey.{
  SigningKey, active_status, public_key_bytes, is_ed25519, ed25519, computed_kid,
  kid_is_self_consistent,
}

-- The id of the empty key: SHA-256 of nothing, cut to eight bytes.
abbrev pub unbackfilled_account_key_id : Str
unbackfilled_account_key_id = codes "e3b0c44298fc1c14"

pub record SigningKeySet : Type 0 where
  pub keys : List SigningKey

unfoldable pub kids : List SigningKey → List Str
kids keys = map (λ key. key.kid) keys

unfoldable pub has_bytes : Option Bytes → Bool
has_bytes none = false
has_bytes (some bs) = true

unfoldable pub is_usable : SigningKey → Bool
unfolding has_bytes
is_usable key = is_ed25519 key && has_bytes (public_key_bytes key)

unfoldable pub usable_keys : SigningKeySet → List SigningKey
usable_keys key_set = keep_if is_usable key_set.keys

-- the loop over the candidates
unfoldable pub first_verified :
    (Bytes → Result Bool) → List SigningKey → Result (Option (SigningKey × Bytes))
first_verified verify [] = ok none
first_verified verify (key ∷ keys) =
    let rest = first_verified verify keys in
    elim (public_key_bytes key) [
      | none ↦ rest
      | some bs ↦ elim (verify bs) [
        | err e ↦ err e
        | ok verified ↦ if verified then ok (some (key, bs)) else rest
      ]
    ]

module _ (sha256 : Bytes → Bytes) where
  -- the loop of `from_public_keys`
  public_keys_from : List Str → Result (List SigningKey)
  public_keys_from [] = ok []
  public_keys_from (public_key ∷ rest) = do
    key ← ed25519 sha256 public_key active_status
    guard (has_bytes (public_key_bytes key)) value_error
    keys ← public_keys_from rest
    ok (key ∷ keys)

  pub from_public_keys : List Str → Result SigningKeySet
  unfolding public_keys_from
  from_public_keys public_keys = do keys ← public_keys_from public_keys; ok (record { keys = keys })

  inconsistent_from : List SigningKey → Result (List SigningKey)
  inconsistent_from [] = ok []
  inconsistent_from (key ∷ keys) = do
    consistent ← kid_is_self_consistent sha256 key
    rest ← inconsistent_from keys
    ok (if consistent then rest else key ∷ rest)

  pub inconsistent_keys : SigningKeySet → Result (List SigningKey)
  unfolding inconsistent_from
  inconsistent_keys key_set = inconsistent_from key_set.keys

  -- the loop of `find`; the computed id is made for every key that is looked at
  find_in : Str → List SigningKey → Result (Option SigningKey)
  find_in kid [] = ok none
  find_in kid (key ∷ keys) = do
    computed ← computed_kid sha256 key
    let rest = find_in kid keys
    if str_eq kid key.kid || str_eq kid computed then ok (some key) else rest

  pub find : SigningKeySet → Str → Result (Option SigningKey)
  unfolding find_in
  find key_set kid = find_in kid key_set.keys

  -- what is raised once every candidate has failed, by the key id that the file claims
  pub no_key_error : SigningKeySet → Option Str → Result (SigningKey × Bytes)
  no_key_error key_set none = err invalid_signature
  no_key_error key_set (some claimed) = do
    let available = kids (usable_keys key_set)
    found ← find key_set claimed
    elim found [
      | some key ↦ err invalid_signature
      | none ↦
          if str_eq claimed unbackfilled_account_key_id
          then err (signing_key_not_published claimed available)
          else err (unknown_signing_key claimed available)
    ]

  unfoldable pub resolve_signing_key :
      SigningKeySet
      → (Bytes → Result Bool)
      → (Unit {0} → Result (Option Str))
      → Result (SigningKey × Bytes)
  unfolding no_key_error first_verified
  resolve_signing_key key_set verify unverified_kid = do
    let candidates = usable_keys key_set
    guard (not (is_empty candidates)) (no_usable_signing_key (kids key_set.keys))
    found ← first_verified verify candidates
    elim found [ some chosen ↦ ok chosen | none ↦ unverified_kid tt >>= no_key_error key_set ]
