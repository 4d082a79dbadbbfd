-- ===== src/Transport/Version.antt =====
-- What the version header is cut down to.
use mathlib.Core.Path.{subst}
use tamga_python.Prelude.{
  zero, suc, ◌≡◌, refl, ap, ◌∙◌, ℕ, ◌≤◌, Bool, true, false, List, [], ◌∷◌, arith, is_empty, length,
  take, take-ge, keep_if, All, All-keep_if, keep_if-eq_of_All, Bool-cases, length-take, inl, inr,
  ◌⊎◌, ◌==◌, ==_iff,
}
use tamga_python.Python.Str.{Str}
use tamga_python.Python.Exc.{ok, err, value_error}
use tamga_python.Transport.{is_version_char, max_tamga_version_length, sanitize_tamga_version}

All-take {ℓ κ} : {A : Type ℓ} (P : A → Type κ) (n : ℕ) (xs : List A) → All P xs → All P (take n xs)
All-take P zero xs h = tt
All-take P (suc n) [] h = tt
All-take P (suc n) (x ∷ xs) (e, h) = (e, All-take P n xs h)

module _ (isalnum : ℕ → Bool) where
  abbrev pub Allowed : ℕ → Type 0
  Allowed c = (isalnum c ≡ true) ⊎ (c ≡ b'.') ⊎ (c ≡ b'-')

  is_version_char-Allowed : (c : ℕ) → is_version_char isalnum c ≡ true → Allowed c
  is_version_char-Allowed c h = elim (Bool-cases (isalnum c)) [
    | inl e ↦ inl e
    | inr e ↦ elim (Bool-cases (c == b'.')) [
      | inl f ↦ inr (inl ((==_iff c b'.').0 f))
      | inr f ↦ inr (inr ((==_iff c b'-').0 (rw (e, f) at h)))
    ]
  ]

  Allowed-is_version_char : (c : ℕ) → Allowed c → is_version_char isalnum c ≡ true
  Allowed-is_version_char c (inl e) = rw e refl
  Allowed-is_version_char c (inr (inl e)) = ground arith
  Allowed-is_version_char c (inr (inr e)) = ground arith

  All-Allowed : (s : Str) → All (λ c. is_version_char isalnum c ≡ true) s → All Allowed s
  All-Allowed [] h = tt
  All-Allowed (c ∷ s) (e, h) = (is_version_char-Allowed c e, All-Allowed s h)

  All-kept : (s : Str) → All Allowed s → All (λ c. is_version_char isalnum c ≡ true) s
  All-kept [] h = tt
  All-kept (c ∷ s) (e, h) = (Allowed-is_version_char c e, All-kept s h)

  -- A header value that the server takes: not empty, at most 32 characters, each of them
  -- alphanumeric, a full stop or a hyphen.
  pub record IsVersion (s : Str) : Type 0 where
    pub occupied : is_empty s ≡ false
    pub short : length s ≤ 32
    pub allowed : All Allowed s

  abbrev sanitized : Str → Str
  sanitized version = take max_tamga_version_length (keep_if (is_version_char isalnum) version)

  sanitize-ok :
      (version : Str) {s : Str}
      → sanitize_tamga_version isalnum version ≡ ok s
      → (is_empty (sanitized version) ≡ false) × (sanitized version ≡ s)
  unfolding sanitize_tamga_version
  sanitize-ok version h =
      elim (Bool-cases
        (is_empty (take max_tamga_version_length (keep_if (is_version_char isalnum) version)))) [
          | inl e ↦ absurd (cc (rw e at h))
          | inr e ↦ (e, cc (rw e at h))
        ]

  sanitized-IsVersion :
      (version : Str) → is_empty (sanitized version) ≡ false → IsVersion (sanitized version)
  sanitized-IsVersion version e = record {
    occupied = e;
    short =
        omega
          (arith, length-take max_tamga_version_length (keep_if (is_version_char isalnum) version));
    allowed = All-Allowed (sanitized version) (
        All-take (λ c. is_version_char isalnum c ≡ true) max_tamga_version_length
          (keep_if (is_version_char isalnum) version)
          (All-keep_if (is_version_char isalnum) version));
  }

  IsVersion-sanitized : (s : Str) → IsVersion s → sanitized s ≡ s
  IsVersion-sanitized s v =
      ap (take max_tamga_version_length)
        (keep_if-eq_of_All (is_version_char isalnum) s (All-kept s v.allowed))
      ∙ take-ge max_tamga_version_length s v.short

  none_kept :
      (s : Str)
      → All (λ c. is_version_char isalnum c ≡ false) s
      → keep_if (is_version_char isalnum) s ≡ []
  none_kept [] h = refl
  none_kept (c ∷ s) (e, h) = rw e (none_kept s h)

  pub sanitize_tamga_version-none :
      (version : Str)
      → All (λ c. is_version_char isalnum c ≡ false) version
      → sanitize_tamga_version isalnum version ≡ err value_error
  unfolding sanitize_tamga_version
  sanitize_tamga_version-none version h = rw (none_kept version h) refl

  -- A value that the server takes is sent unchanged.
  pub sanitize_tamga_version-kept :
      (s : Str) → IsVersion s → sanitize_tamga_version isalnum s ≡ ok s
  unfolding sanitize_tamga_version
  sanitize_tamga_version-kept s v = rw (IsVersion-sanitized s v, v.occupied) refl

  -- What is returned is a value that the server takes, not empty, of at most 32 characters, all
  -- of them allowed, and returning it again changes nothing.
  pub sanitize_tamga_version-IsVersion :
      (version s : Str)
      → sanitize_tamga_version isalnum version ≡ ok s
      → IsVersion s × (sanitize_tamga_version isalnum s ≡ ok s)
  sanitize_tamga_version-IsVersion version s h =
      let (e, same) = sanitize-ok version h in
      let v : IsVersion s = subst (λ (w : Str). IsVersion w) same (sanitized-IsVersion version e) in
      (v, sanitize_tamga_version-kept s v)
