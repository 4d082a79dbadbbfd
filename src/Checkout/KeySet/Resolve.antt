-- ===== src/Checkout/KeySet/Resolve.antt =====
-- Which key a file is accepted under, and what a rejection says.
use mathlib.Core.List.{Memᴰ}
use tamga_python.Prelude.{
  ◌≡◌, refl, sym, ap, ◌∙◌, ◌⊎◌, inl, inr, Bool, true, false, Option, none, some, List, [], ◌∷◌,
  arith, keep_if, is_empty, All, Bool-cases, Option-cases, ◌≢◌,
}
use tamga_python.Python.Str.{Str, Bytes}
use tamga_python.Python.Exc.{Exc, Result, ok, err, ◌>>=◌, value_of_ok, no_usable_signing_key}
use tamga_python.Models.SigningKey.{SigningKey, public_key_bytes, is_ed25519}
use tamga_python.Checkout.KeySet.{
  SigningKeySet, kids, is_usable, usable_keys, first_verified, no_key_error, resolve_signing_key,
}

pub found-cases {ℓ} :
    {A : Type ℓ} (r : Result (Option A))
    → (r ≡ ok none) ⊎ ((a : A) × (r ≡ ok (some a))) ⊎ ((e : Exc) × (r ≡ err e))
found-cases (ok none) = inl refl
found-cases (ok (some a)) = inr (inl (a, refl))
found-cases (err e) = inr (inr (e, refl))

-- The key is an Ed25519 key of 32 bytes under which the file's check passes.
pub record Verifies (verify : Bytes → Result Bool) (key : SigningKey) (bs : Bytes) : Type 0 where
  pub algorithm : is_ed25519 key ≡ true
  pub decoded : public_key_bytes key ≡ some bs
  pub passed : verify bs ≡ ok true

pub verdict : (r : Result Bool) → (r ≡ ok true) ⊎ (r ≡ ok false) ⊎ ((e : Exc) × (r ≡ err e))
verdict (ok true) = inl refl
verdict (ok false) = inr (inl refl)
verdict (err e) = inr (inr (e, refl))

pub error_of_err {ℓ} : {A : Type ℓ} {x e : Exc} → ◌≡◌ {A = Result A} (err x) (err e) → x ≡ e
error_of_err h = cc h

same_found :
    {p q : SigningKey × Bytes}
    → ◌≡◌ {A = Result (Option (SigningKey × Bytes))} (ok (some p)) (ok (some q))
    → p ≡ q
same_found h = cc h

module _ (verify : Bytes → Result Bool) where
  step-found :
      (k : SigningKey) (ks : List SigningKey) (key : SigningKey) (bs : Bytes)
      → first_verified verify (k ∷ ks) ≡ ok (some (key, bs))
      → ((k ≡ key) × (public_key_bytes key ≡ some bs) × (verify bs ≡ ok true))
        ⊎ (first_verified verify ks ≡ ok (some (key, bs)))
  unfolding first_verified
  step-found k ks key bs h = elim (Option-cases (public_key_bytes k)) [
    | inl e ↦ inr (rw (first_verified, e) at h)
    | inr (bs', e) ↦ elim (verdict (verify bs')) [
      | inl v ↦
          let same : (k, bs') ≡ (key, bs) = same_found (rw (first_verified, e, v) at h) in
          let same_key : k ≡ key = ap (λ (p : SigningKey × Bytes). p.0) same in
          let same_bytes : bs' ≡ bs = ap (λ (p : SigningKey × Bytes). p.1) same in
          inl (same_key, rw (sym same_key, sym same_bytes) e, rw (sym same_bytes) v)
      | inr (inl v) ↦ inr (rw (first_verified, e, v) at h)
      | inr (inr (x, v)) ↦ absurd (cc (rw (first_verified, e, v) at h))
    ]
  ]

  -- The first key that verifies is one of the set, of the right kind.
  pub chosen_sound :
      (keys : List SigningKey) (key : SigningKey) (bs : Bytes)
      → first_verified verify (keep_if is_usable keys) ≡ ok (some (key, bs))
      → Memᴰ key keys × Verifies verify key bs
  chosen_sound [] key bs h = unfold first_verified in absurd (cc h)
  chosen_sound (k ∷ ks) key bs h = elim (Bool-cases (is_usable k)) [
    | inl e ↦ elim (step-found k (keep_if is_usable ks) key bs (rw e at h)) [
      | inl (same, decoded, passed) ↦ (
        Memᴰ.head (sym same),
        record { algorithm = unfold is_usable in ground arith; decoded = decoded; passed = passed },
      )
      | inr later ↦ let (m, v) = chosen_sound ks key bs later in (Memᴰ.tail m, v)
    ]
    | inr e ↦ let (m, v) = chosen_sound ks key bs (rw e at h) in (Memᴰ.tail m, v)
  ]

  step-none :
      (k : SigningKey) (ks : List SigningKey)
      → first_verified verify (k ∷ ks) ≡ ok none
      → ((bs : Bytes) → public_key_bytes k ≡ some bs → verify bs ≡ ok false)
        × (first_verified verify ks ≡ ok none)
  unfolding first_verified
  step-none k ks h = elim (Option-cases (public_key_bytes k)) [
    | inl e ↦ (λ bs d. cc, (rw (first_verified, e) at h))
    | inr (bs', e) ↦ elim (verdict (verify bs')) [
      | inl v ↦ absurd (cc (rw (first_verified, e, v) at h))
      | inr (inl v) ↦ (
        λ bs d. let same : bs' ≡ bs = cc (sym e ∙ d) in rw (sym same) v,
        (rw (first_verified, e, v) at h),
      )
      | inr (inr (x, v)) ↦ absurd (cc (rw (first_verified, e, v) at h))
    ]
  ]

  -- No key of the list verifies.
  abbrev pub NoneVerifies : List SigningKey → Type 0
  NoneVerifies keys = All (λ key. (bs : Bytes) → ¬ Verifies verify key bs) keys

  none-step :
      (k : SigningKey)
      → ((bs : Bytes) → public_key_bytes k ≡ some bs → verify bs ≡ ok false)
      → (bs : Bytes) → ¬ Verifies verify k bs
  none-step k h bs v = cc (sym (h bs v.decoded) ∙ v.passed)

  unusable-step : (k : SigningKey) → is_usable k ≡ false → (bs : Bytes) → ¬ Verifies verify k bs
  unfolding is_usable
  unusable-step k e bs v = ground (arith, v.algorithm, v.decoded)

  is_usable-of_Verifies : (k : SigningKey) (bs : Bytes) → Verifies verify k bs → is_usable k ≡ true
  unfolding is_usable
  is_usable-of_Verifies k bs v = rw (v.algorithm, v.decoded)

  pub chosen-none :
      (keys : List SigningKey)
      → first_verified verify (keep_if is_usable keys) ≡ ok none
      → NoneVerifies keys
  chosen-none [] h = tt
  chosen-none (k ∷ ks) h = elim (Bool-cases (is_usable k)) [
    | inl e ↦
        let (here, later) = step-none k (keep_if is_usable ks) (rw e at h) in
        (none-step k here, chosen-none ks later)
    | inr e ↦ (unusable-step k e, chosen-none ks (rw e at h))
  ]

  pub none_at :
      (keys : List SigningKey) (key : SigningKey) (bs : Bytes)
      → NoneVerifies keys
      → Memᴰ key keys
      → ¬ Verifies verify key bs
  none_at [] key bs h m v = elim m [ ]
  none_at (k ∷ ks) key bs h (Memᴰ.head e) v = h.0 bs (rw e at v)
  none_at (k ∷ ks) key bs h (Memᴰ.tail m) v = none_at ks key bs h.1 m v

  usable-of_Verifies :
      (keys : List SigningKey) (key : SigningKey) (bs : Bytes)
      → Memᴰ key keys
      → Verifies verify key bs
      → is_empty (keep_if is_usable keys) ≡ false
  usable-of_Verifies [] key bs m v = elim m [ ]
  usable-of_Verifies (k ∷ ks) key bs (Memᴰ.head e) v = rw (rw e at (is_usable-of_Verifies key bs v))
  usable-of_Verifies (k ∷ ks) key bs (Memᴰ.tail m) v =
      ground (arith, usable-of_Verifies ks key bs m v)

  not_empty-of_found :
      (keys : List SigningKey) {found : SigningKey × Bytes}
      → first_verified verify keys ≡ ok (some found)
      → is_empty keys ≡ false
  unfolding first_verified
  not_empty-of_found [] h = absurd (cc h)
  not_empty-of_found (k ∷ ks) h = refl

  not_empty-of_raised :
      (keys : List SigningKey) {e : Exc}
      → first_verified verify keys ≡ err e
      → is_empty keys ≡ false
  unfolding first_verified
  not_empty-of_raised [] h = absurd (cc h)
  not_empty-of_raised (k ∷ ks) h = refl

  -- A key of the list has 32 bytes of Ed25519 over which the check raised.
  abbrev pub RaisedAt : List SigningKey → Exc → Type 0
  RaisedAt keys e =
      (key : SigningKey) × (bs : Bytes) × Memᴰ key keys
      × (is_ed25519 key ≡ true)
      × (public_key_bytes key ≡ some bs)
      × (verify bs ≡ err e)

  later_key :
      (k : SigningKey) (ks : List SigningKey) (e : Exc) → RaisedAt ks e → RaisedAt (k ∷ ks) e
  later_key k ks e (key, bs, m, alg, decoded, v) = (key, bs, Memᴰ.tail m, alg, decoded, v)

  step-raised :
      (k : SigningKey) (ks : List SigningKey) (e : Exc)
      → first_verified verify (k ∷ ks) ≡ err e
      → ((bs : Bytes) × (public_key_bytes k ≡ some bs) × (verify bs ≡ err e))
        ⊎ (first_verified verify ks ≡ err e)
  unfolding first_verified
  step-raised k ks e h = elim (Option-cases (public_key_bytes k)) [
    | inl d ↦ inr (rw (first_verified, d) at h)
    | inr (bs, d) ↦ elim (verdict (verify bs)) [
      | inl v ↦ absurd (cc (rw (first_verified, d, v) at h))
      | inr (inl v) ↦ inr (rw (first_verified, d, v) at h)
      | inr (inr (x, v)) ↦ inl (
        bs,
        d,
        let same : x ≡ e = error_of_err (rw (first_verified, d, v) at h) in v ∙ ap err same,
      )
    ]
  ]

  pub raised-RaisedAt :
      (keys : List SigningKey) (e : Exc)
      → first_verified verify (keep_if is_usable keys) ≡ err e
      → RaisedAt keys e
  unfolding is_usable
  raised-RaisedAt [] e h = unfold first_verified in absurd (cc h)
  raised-RaisedAt (k ∷ ks) e h = elim (Bool-cases (is_usable k)) [
    | inl u ↦ elim (step-raised k (keep_if is_usable ks) e (rw u at h)) [
      | inl (bs, d, v) ↦ (k, bs, Memᴰ.head refl, ground arith, d, v)
      | inr later ↦ later_key k ks e (raised-RaisedAt ks e later)
    ]
    | inr u ↦ later_key k ks e (raised-RaisedAt ks e (rw u at h))
  ]

module _ (sha256 : Bytes → Bytes) (key_set : SigningKeySet) (verify : Bytes → Result Bool)
    (unverified_kid : Unit {0} → Result (Option Str)) where
  pub resolve-found :
      {found : SigningKey × Bytes}
      → first_verified verify (keep_if is_usable key_set.keys) ≡ ok (some found)
      → resolve_signing_key sha256 key_set verify unverified_kid ≡ ok found
  unfolding resolve_signing_key usable_keys
  resolve-found h = rw (not_empty-of_found verify (keep_if is_usable key_set.keys) h, h)

  pub resolve-none :
      first_verified verify (keep_if is_usable key_set.keys) ≡ ok none
      → is_empty (keep_if is_usable key_set.keys) ≡ false
      → resolve_signing_key sha256 key_set verify unverified_kid
        ≡ (unverified_kid tt >>= no_key_error sha256 key_set)
  unfolding resolve_signing_key usable_keys
  resolve-none h k = rw (k, h)

  pub resolve-raised :
      {e : Exc}
      → first_verified verify (keep_if is_usable key_set.keys) ≡ err e
      → resolve_signing_key sha256 key_set verify unverified_kid ≡ err e
  unfolding resolve_signing_key usable_keys
  resolve-raised h = rw (not_empty-of_raised verify (keep_if is_usable key_set.keys) h, h)

  pub resolve-empty :
      is_empty (keep_if is_usable key_set.keys) ≡ true
      → resolve_signing_key sha256 key_set verify unverified_kid
        ≡ err (no_usable_signing_key (kids key_set.keys))
  unfolding resolve_signing_key usable_keys
  resolve-empty h = rw h

  no_key_error-ne-ok :
      (claimed : Option Str) (found : SigningKey × Bytes)
      → no_key_error sha256 key_set claimed ≢ ok found
  unfolding no_key_error
  no_key_error-ne-ok claimed found h = ground arith

  pub rejection-ne-ok :
      (claimed : Result (Option Str)) (found : SigningKey × Bytes)
      → (claimed >>= no_key_error sha256 key_set) ≢ ok found
  rejection-ne-ok (ok claimed) found h = no_key_error-ne-ok claimed found h
  rejection-ne-ok (err e) found h = cc

  -- A file is accepted only under an Ed25519 key of the set whose 32 bytes pass the file's check.
  pub resolve_signing_key_sound :
      (key : SigningKey) (bs : Bytes)
      → resolve_signing_key sha256 key_set verify unverified_kid ≡ ok (key, bs)
      → Memᴰ key key_set.keys × Verifies verify key bs
  resolve_signing_key_sound key bs h =
      elim (found-cases (first_verified verify (keep_if is_usable key_set.keys))) [
        | inr (inl (found, e)) ↦
            chosen_sound verify key_set.keys key bs (
              let same : found ≡ (key, bs) = value_of_ok (sym (resolve-found e) ∙ h) in
              rw same at e)
        | inr (inr (x, e)) ↦ absurd (cc (sym (resolve-raised e) ∙ h))
        | inl e ↦ elim (Bool-cases (is_empty (keep_if is_usable key_set.keys))) [
          | inl k ↦ absurd (cc (sym (resolve-empty k) ∙ h))
          | inr k ↦
              absurd (rejection-ne-ok (unverified_kid tt) (key, bs) (sym (resolve-none e k) ∙ h))
        ]
      ]

  -- If some Ed25519 key of the set passes the check, the file is accepted, whatever key id it
  -- claims and whether or not that can be read, unless the check itself raises over an Ed25519 key of
  -- the set, and then that is what is raised.
  pub resolve_signing_key_complete :
      (key : SigningKey) (bs : Bytes)
      → Memᴰ key key_set.keys
      → Verifies verify key bs
      → ((found : SigningKey × Bytes) × (resolve_signing_key sha256 key_set verify unverified_kid
            ≡ ok found))
        ⊎ ((e : Exc) × RaisedAt verify key_set.keys e
            × (resolve_signing_key sha256 key_set verify unverified_kid ≡ err e))
  resolve_signing_key_complete key bs m v =
      elim (found-cases (first_verified verify (keep_if is_usable key_set.keys))) [
        | inr (inl (found, e)) ↦ inl (found, resolve-found e)
        | inr (inr (x, e)) ↦ inr (x, raised-RaisedAt verify key_set.keys x e, resolve-raised e)
        | inl e ↦
            absurd (none_at verify key_set.keys key bs (chosen-none verify key_set.keys e) m v)
      ]
