-- ===== src/Checkout/KeySet/Pinned.antt =====
-- Keys pinned by hand: the strict constructor.
use mathlib.Core.Path.{subst}
use tamga_python.Prelude.{
  ◌≡◌, refl, true, none, List, [], ◌∷◌, map, keep_if, All, keep_if-eq_of_All,
}
use tamga_python.Python.Str.{Str, Bytes, str_eq_self}
use tamga_python.Python.Exc.{ok, guard, >>=-eq-ok, guard-eq-ok}
use tamga_python.Models.SigningKey.{
  SigningKey, active_status, ed25519_algorithm, public_key_bytes, is_ed25519, key_id, ed25519,
  computed_kid, kid_is_self_consistent,
}
use tamga_python.Checkout.KeySet.{
  SigningKeySet, has_bytes, is_usable, usable_keys, public_keys_from, from_public_keys,
  inconsistent_from, inconsistent_keys,
}

module _ (sha256 : Bytes → Bytes) where
  record IsPinned (public_key : Str) (key : SigningKey) : Type 0 where
    same : key.public_key ≡ public_key
    usable : is_usable key ≡ true
    consistent : kid_is_self_consistent sha256 key ≡ ok true

  abbrev built : Str → Str → SigningKey
  built kid public_key = record {
    kid = kid;
    public_key = public_key;
    algorithm = ed25519_algorithm;
    status = active_status;
    created = none;
    retired = none;
  }

  built-IsPinned :
      (kid public_key : Str)
      → key_id sha256 public_key ≡ ok kid
      → has_bytes (public_key_bytes (built kid public_key)) ≡ true
      → IsPinned public_key (built kid public_key)
  built-IsPinned kid public_key e b = record {
    same = refl;
    usable = unfold is_usable is_ed25519 in b;
    consistent = unfold kid_is_self_consistent computed_kid in rw (e, str_eq_self kid);
  }

  ed25519-IsPinned :
      (public_key : Str) (key : SigningKey)
      → ed25519 sha256 public_key active_status ≡ ok key
      → has_bytes (public_key_bytes key) ≡ true
      → IsPinned public_key key
  unfolding ed25519
  ed25519-IsPinned public_key key h b =
      let (kid, e, k) = >>=-eq-ok (key_id sha256 public_key) _ h in
      let same : built kid public_key ≡ key = cc k in
      subst (IsPinned public_key) same (built-IsPinned kid public_key e (rw (← same) at b))

  abbrev ArePinned : List Str → List SigningKey → Type 0
  ArePinned public_keys keys =
      (map (λ k. k.public_key) keys ≡ public_keys)
      × All (λ k. is_usable k ≡ true) keys
      × (inconsistent_from sha256 keys ≡ ok [])

  ArePinned-cons :
      (pk : Str) (pks : List Str) (key : SigningKey) (keys : List SigningKey)
      → IsPinned pk key
      → ArePinned pks keys
      → ArePinned (pk ∷ pks) (key ∷ keys)
  unfolding inconsistent_from
  ArePinned-cons pk pks key keys p (same, usable, consistent) =
      (cc (p.same), (p.usable, usable), rw (p.consistent, consistent))

  public_keys_from-ArePinned :
      (public_keys : List Str) (keys : List SigningKey)
      → public_keys_from sha256 public_keys ≡ ok keys
      → ArePinned public_keys keys
  unfolding public_keys_from
  public_keys_from-ArePinned [] keys h =
      let same : [] ≡ keys = cc in
      subst (ArePinned []) same (refl, tt, unfold inconsistent_from in refl)
  public_keys_from-ArePinned (pk ∷ pks) keys h =
      let (key, e, k) = >>=-eq-ok (ed25519 sha256 pk active_status) _ h in
      let (_, g, k') = >>=-eq-ok (guard (has_bytes (public_key_bytes key)) _) _ k in
      let (rest, r, k'') = >>=-eq-ok (public_keys_from sha256 pks) _ k' in
      let same : key ∷ rest ≡ keys = cc k'' in
      subst (ArePinned (pk ∷ pks)) same (
        ArePinned-cons pk pks key rest (ed25519-IsPinned pk key e (guard-eq-ok _ _ g))
          (public_keys_from-ArePinned pks rest r))

  -- A set that is built from pinned keys holds them in their order, every one usable and labelled
  -- with the id that is computed from it.
  pub from_public_keys-usable :
      (public_keys : List Str) (key_set : SigningKeySet)
      → from_public_keys sha256 public_keys ≡ ok key_set
      → (map (λ k. k.public_key) key_set.keys ≡ public_keys)
        × (usable_keys key_set ≡ key_set.keys)
        × (inconsistent_keys sha256 key_set ≡ ok [])
  unfolding from_public_keys usable_keys inconsistent_keys
  from_public_keys-usable public_keys key_set h =
      let (keys, e, k) = >>=-eq-ok (public_keys_from sha256 public_keys) _ h in
      let same : record { keys = keys } ≡ key_set = cc k in
      let (texts, usable, consistent) = public_keys_from-ArePinned public_keys keys e in
      subst
        (λ (set : SigningKeySet).
          (map (λ k. k.public_key) set.keys ≡ public_keys)
          × (keep_if is_usable set.keys ≡ set.keys)
          × (inconsistent_from sha256 set.keys ≡ ok []))
        same (texts, keep_if-eq_of_All is_usable keys usable, consistent)
