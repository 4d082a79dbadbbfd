-- ===== src/Checkout/KeySet/Rejection.antt =====
-- What a rejection says of the file: a stale key set and a forgery are told apart.
use mathlib.Core.List.{Memᴰ}
use tamga_python.Prelude.{
  ◌≡◌, ◌≢◌, refl, sym, ap, ◌∙◌, ◌⊎◌, inl, inr, Bool, true, false, ◌||◌, Option, none, some, List,
  [], ◌∷◌, arith, if◌then◌else◌, keep_if, is_empty, take, All, Bool-cases, Option-cases,
}
use tamga_python.Python.Str.{Str, Bytes, str_eq, str_eq_iff, utf8, is_encodable}
use tamga_python.Python.Hash.{hex}
use tamga_python.Python.Exc.{
  Exc, Result, ok, err, ◌>>=◌, invalid_signature, unknown_signing_key, unicode_error, >>=-eq-ok,
  Raises, IsUnsupported, unsupported_algorithm,
}
use tamga_python.Models.SigningKey.{SigningKey, public_key_bytes, key_id, computed_kid}
use tamga_python.Checkout.KeySet.{
  SigningKeySet, unbackfilled_account_key_id, kids, is_usable, usable_keys, find_in, find,
  first_verified, no_key_error, resolve_signing_key,
}
use tamga_python.Checkout.KeySet.Resolve.{
  NoneVerifies, found-cases, error_of_err, raised-RaisedAt, chosen-none, resolve-found,
  resolve-none, resolve-raised, resolve-empty,
}

not_in-All {ℓ} :
    {A : Type ℓ} (P : A → Type 0) (xs : List A) (x : A) → All (λ y. ¬ P y) xs → Memᴰ x xs → ¬ P x
not_in-All P [] x h m p = elim m [ ]
not_in-All P (y ∷ ys) x h (Memᴰ.head e) p = h.0 (rw e at p)
not_in-All P (y ∷ ys) x h (Memᴰ.tail m) p = not_in-All P ys x h.1 m p

-- The key goes by this id, published or computed.
abbrev pub Names : (Bytes → Bytes) → Str → SigningKey → Type 0
Names sha256 kid key = (key.kid ≡ kid) ⊎ (computed_kid sha256 key ≡ ok kid)

module _ (sha256 : Bytes → Bytes) (kid : Str) where
  find_in-step :
      (key : SigningKey) (keys : List SigningKey) (computed : Str)
      → computed_kid sha256 key ≡ ok computed
      → find_in sha256 kid (key ∷ keys) ≡ (
          if str_eq kid key.kid || str_eq kid computed
          then ok (some key)
          else find_in sha256 kid keys)
  unfolding find_in
  find_in-step key keys computed h = rw h

  find_in-computed :
      (key : SigningKey) (keys : List SigningKey) {found : Option SigningKey}
      → find_in sha256 kid (key ∷ keys) ≡ ok found
      → (computed : Str) × (computed_kid sha256 key ≡ ok computed)
  unfolding find_in
  find_in-computed key keys h =
      let (computed, e, _) = >>=-eq-ok (computed_kid sha256 key) _ h in (computed, e)

  not_named :
      (key : SigningKey) (computed : Str)
      → computed_kid sha256 key ≡ ok computed
      → (str_eq kid key.kid || str_eq kid computed) ≡ false
      → ¬ Names sha256 kid key
  not_named key computed e h named = ground (arith, str_eq_iff kid key.kid, str_eq_iff kid computed)

  named :
      (key : SigningKey) (computed : Str)
      → computed_kid sha256 key ≡ ok computed
      → (str_eq kid key.kid || str_eq kid computed) ≡ true
      → Names sha256 kid key
  named key computed e h = ground (arith, str_eq_iff kid key.kid, str_eq_iff kid computed)

  -- A key id is not found only if no key goes by it.
  find_in-none :
      (keys : List SigningKey)
      → find_in sha256 kid keys ≡ ok none
      → All (λ key. ¬ Names sha256 kid key) keys
  find_in-none [] h = tt
  find_in-none (key ∷ keys) h =
      let (computed, e) = find_in-computed key keys h in
      elim (Bool-cases (str_eq kid key.kid || str_eq kid computed)) [
        | inl t ↦ absurd (ground (arith, find_in-step key keys computed e))
        | inr f ↦ (
          not_named key computed e f,
          find_in-none keys (ground (arith, find_in-step key keys computed e)),
        )
      ]

  -- What is found is a key of the list that goes by the id.
  find_in-some :
      (keys : List SigningKey) (found : SigningKey)
      → find_in sha256 kid keys ≡ ok (some found)
      → Memᴰ found keys × Names sha256 kid found
  find_in-some [] found h = unfold find_in in cc
  find_in-some (key ∷ keys) found h =
      let (computed, e) = find_in-computed key keys h in
      elim (Bool-cases (str_eq kid key.kid || str_eq kid computed)) [
        | inl t ↦
            let same : found ≡ key = ground (arith, find_in-step key keys computed e) in
            (Memᴰ.head same, rw same (named key computed e t))
        | inr f ↦
            let (m, n) =
              find_in-some keys found (ground (arith, find_in-step key keys computed e)) in
            (Memᴰ.tail m, n)
      ]

  computed_kid-ok :
      (key : SigningKey)
      → is_encodable key.public_key ≡ true
      → (computed : Str) × (computed_kid sha256 key ≡ ok computed)
  unfolding computed_kid key_id is_encodable
  computed_kid-ok key h = (hex (take 8 (sha256 (utf8 key.public_key))), rw h)

  -- A key id by which a key of the list goes is found, if the public keys can be encoded.
  find_in-total :
      (keys : List SigningKey)
      → All (λ key. is_encodable key.public_key ≡ true) keys
      → (found : Option SigningKey) × (find_in sha256 kid keys ≡ ok found)
  find_in-total [] h = (none, unfold find_in in refl)
  find_in-total (key ∷ keys) (e, h) =
      let (computed, c) = computed_kid-ok key e in
      let (found, f) = find_in-total keys h in
      elim (Bool-cases (str_eq kid key.kid || str_eq kid computed)) [
        | inl t ↦ (some key, ground (arith, find_in-step key keys computed c))
        | inr t ↦ (found, ground (arith, find_in-step key keys computed c))
      ]

module _ (sha256 : Bytes → Bytes) (kid : Str) where
  computed_kid-err :
      (key : SigningKey) (e : Exc) → computed_kid sha256 key ≡ err e → e ≡ unicode_error
  unfolding computed_kid key_id
  computed_kid-err key e h = ground arith

  find_in-err :
      (keys : List SigningKey) (e : Exc) → find_in sha256 kid keys ≡ err e → e ≡ unicode_error
  unfolding find_in
  find_in-err [] e h = cc
  find_in-err (key ∷ keys) e h = ground (arith, computed_kid-err key e, find_in-err keys e)

  find_in-eq-some :
      (keys : List SigningKey) (key : SigningKey)
      → Memᴰ key keys
      → Names sha256 kid key
      → All (λ k. is_encodable k.public_key ≡ true) keys
      → (found : SigningKey) × (find_in sha256 kid keys ≡ ok (some found))
  find_in-eq-some keys key m n encodable =
      let (found, e) = find_in-total sha256 kid keys encodable in
      elim (Option-cases found) [
        | inl none_found ↦ absurd (
            not_in-All (Names sha256 kid) keys key
              (find_in-none sha256 kid keys (rw none_found at e)) m n)
        | inr (k, some_found) ↦ (k, rw some_found at e)
      ]

module _ (sha256 : Bytes → Bytes) (key_set : SigningKeySet) (verify : Bytes → Result Bool)
    (unverified_kid : Unit {0} → Result (Option Str)) where
  -- Every key of 32 bytes fails the check.
  abbrev Rejects : List SigningKey → Type 0
  Rejects keys =
      All (λ key. (bs : Bytes) → public_key_bytes key ≡ some bs → verify bs ≡ ok false) keys

  Rejects-none :
      (keys : List SigningKey)
      → Rejects keys
      → first_verified verify (keep_if is_usable keys) ≡ ok none
  unfolding first_verified
  Rejects-none [] h = refl
  Rejects-none (k ∷ ks) (here, later) = elim (Bool-cases (is_usable k)) [
    | inr u ↦ rw u (Rejects-none ks later)
    | inl u ↦ elim (Option-cases (public_key_bytes k)) [
      | inl d ↦ rw (u, first_verified, d) (Rejects-none ks later)
      | inr (bs, d) ↦ rw (u, first_verified, d, here bs d) (Rejects-none ks later)
    ]
  ]

  not_raised :
      (bs : Bytes) {kid : Str} {available : List Str}
      → Raises IsUnsupported (verify bs)
      → verify bs ≢ err (unknown_signing_key kid available)
  not_raised bs raises h =
      let same : unknown_signing_key _ _ ≡ unsupported_algorithm = rw h at raises in cc same

  find-err : (kid : Str) (e : Exc) → find sha256 key_set kid ≡ err e → e ≡ unicode_error
  unfolding find
  find-err kid e h = find_in-err sha256 kid key_set.keys e h

  -- What the last step says, for each answer of `find`.
  no_key_error-unknown :
      (claimed : Option Str) (kid : Str) (available : List Str)
      → no_key_error sha256 key_set claimed ≡ err (unknown_signing_key kid available)
      → (claimed ≡ some kid)
        × (find sha256 key_set kid ≡ ok none)
        × (str_eq kid unbackfilled_account_key_id ≡ false)
        × (available ≡ kids (usable_keys key_set))
  unfolding no_key_error
  no_key_error-unknown none kid available h = cc
  no_key_error-unknown (some k) kid available h =
      ground (arith, find-err k (unknown_signing_key kid available))

  -- If the check raises UnsupportedAlgorithm at most, the key id that a file claims can be read, and
  -- the error says that the key set does not hold the file's key, then the file claims that key id, no key of the set goes by it, no key of
  -- the set verifies the file, and the id is not that of the empty key; the error lists the ids of
  -- the usable keys.
  pub resolve_signing_key-unknown :
      (claimed : Option Str) (kid : Str) (available : List Str)
      → ((bs : Bytes) → Raises IsUnsupported (verify bs))
      → unverified_kid tt ≡ ok claimed
      → resolve_signing_key sha256 key_set verify unverified_kid
        ≡ err (unknown_signing_key kid available)
      → (claimed ≡ some kid)
        × All (λ key. ¬ Names sha256 kid key) key_set.keys
        × NoneVerifies verify key_set.keys
        × (kid ≢ unbackfilled_account_key_id)
        × (available ≡ kids (usable_keys key_set))
  resolve_signing_key-unknown claimed kid available raises read h =
      elim (found-cases (first_verified verify (keep_if is_usable key_set.keys))) [
        | inr (inl (found, e)) ↦
            absurd (cc (sym (resolve-found sha256 key_set verify unverified_kid e) ∙ h))
        | inr (inr (x, e)) ↦
            let same : x ≡ unknown_signing_key kid available =
              error_of_err (sym (resolve-raised sha256 key_set verify unverified_kid e) ∙ h) in
            let (key, bs, m, alg, decoded, v) = raised-RaisedAt verify key_set.keys x e in
            absurd (not_raised bs (raises bs) (v ∙ ap err same))
        | inl e ↦ elim (Bool-cases (is_empty (keep_if is_usable key_set.keys))) [
          | inl k ↦ absurd (cc (sym (resolve-empty sha256 key_set verify unverified_kid k) ∙ h))
          | inr k ↦
              let last : (unverified_kid tt >>= no_key_error sha256 key_set)
                  ≡ err (unknown_signing_key kid available) =
                sym (resolve-none sha256 key_set verify unverified_kid e k) ∙ h in
              let (same, missing, not_empty, listed) =
                no_key_error-unknown claimed kid available (rw read at last) in
              (
                same,
                unfold find in find_in-none sha256 kid key_set.keys missing,
                chosen-none verify key_set.keys e,
                (λ p. ground (arith, str_eq_iff kid unbackfilled_account_key_id)),
                listed,
              )
        ]
      ]

  -- If the file claims a key of the set, by its published or its computed id, the set has a usable
  -- key and only texts that can be encoded, and every key of the set fails the check, then it is
  -- reported as forged, never as signed by an unknown key.
  pub resolve_signing_key-forged :
      (kid : Str) (key : SigningKey)
      → unverified_kid tt ≡ ok (some kid)
      → Memᴰ key key_set.keys
      → Names sha256 kid key
      → Rejects key_set.keys
      → is_empty (usable_keys key_set) ≡ false
      → All (λ k. is_encodable k.public_key ≡ true) key_set.keys
      → resolve_signing_key sha256 key_set verify unverified_kid ≡ err invalid_signature
  resolve_signing_key-forged kid key read m named rejects usable encodable =
      let (found, f) = find_in-eq-some sha256 kid key_set.keys key m named encodable in
      resolve-none sha256 key_set verify unverified_kid (Rejects-none key_set.keys rejects)
        (unfold usable_keys in usable)
      ∙ rw read (unfold no_key_error find in rw f)
