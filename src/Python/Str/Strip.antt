-- ===== src/Python/Str/Strip.antt =====
-- Laws of `strip`.
use tamga_python.Prelude.{
  ℕ, ◌≡◌, refl, Bool, true, false, [], ◌∷◌, ◌++◌, is_empty, All, Bool-cases, inl, inr,
}
use tamga_python.Python.Str.{Str, lstrip, rstrip, strip}

is_empty-append : (xs ys : Str) → is_empty ys ≡ false → is_empty (xs ++ ys) ≡ false
is_empty-append [] ys h = h
is_empty-append (x ∷ xs) ys h = refl

module _ (drops : ℕ → Bool) where
  lstrip-before :
      (before s : Str)
      → All (λ c. drops c ≡ true) before
      → lstrip drops (before ++ s) ≡ lstrip drops s
  unfolding lstrip
  lstrip-before [] s h = refl
  lstrip-before (c ∷ before) s (e, h) = rw e (lstrip-before before s h)

  rstrip-All : (s : Str) → All (λ c. drops c ≡ true) s → rstrip drops s ≡ []
  unfolding rstrip
  rstrip-All [] h = refl
  rstrip-All (c ∷ s) (e, h) = rw (rstrip-All s h, e)

  pub rstrip-after :
      (s after : Str) → All (λ c. drops c ≡ true) after → rstrip drops (s ++ after) ≡ rstrip drops s
  unfolding rstrip
  rstrip-after [] after h = rstrip-All after h
  rstrip-after (c ∷ s) after h = rw (rstrip-after s after h)

  lstrip-All : (s : Str) → All (λ c. drops c ≡ true) s → All (λ c. drops c ≡ true) (lstrip drops s)
  unfolding lstrip
  lstrip-All [] h = tt
  lstrip-All (c ∷ s) (e, h) = rw e (lstrip-All s h)

  rstrip-lstrip-after :
      (s after : Str)
      → All (λ c. drops c ≡ true) after
      → rstrip drops (lstrip drops (s ++ after)) ≡ rstrip drops (lstrip drops s)
  unfolding lstrip rstrip
  rstrip-lstrip-after [] after h = rstrip-All (lstrip drops after) (lstrip-All after h)
  rstrip-lstrip-after (c ∷ s) after h = elim (Bool-cases (drops c)) [
    | inl e ↦ rw e (rstrip-lstrip-after s after h)
    | inr e ↦ rw e (rstrip-after (c ∷ s) after h)
  ]

  -- What `strip` removes can be put around a text.
  pub strip-padded :
      (before after s : Str)
      → All (λ c. drops c ≡ true) before
      → All (λ c. drops c ≡ true) after
      → strip drops (before ++ (s ++ after)) ≡ strip drops s
  unfolding strip
  strip-padded before after s h k =
      rw (lstrip-before before (s ++ after) h) (rstrip-lstrip-after s after k)

  -- A text that keeps its last character keeps what is before it.
  pub rstrip-append :
      (xs ys : Str)
      → rstrip drops ys ≡ ys
      → is_empty ys ≡ false
      → rstrip drops (xs ++ ys) ≡ xs ++ ys
  unfolding rstrip
  rstrip-append [] ys h k = h
  rstrip-append (x ∷ xs) ys h k = rw (rstrip-append xs ys h k, is_empty-append xs ys k)

  pub rstrip-kept : (s : Str) → All (λ c. drops c ≡ false) s → rstrip drops s ≡ s
  unfolding rstrip
  rstrip-kept [] h = refl
  rstrip-kept (c ∷ []) (e, h) = rw e
  rstrip-kept (c ∷ d ∷ s) (e, h) = rw (rstrip-kept (d ∷ s) h)

  -- A text of characters that `strip` keeps is left as it is.
  pub strip-kept : (s : Str) → All (λ c. drops c ≡ false) s → strip drops s ≡ s
  unfolding strip lstrip
  strip-kept [] h = rstrip-kept [] h
  strip-kept (c ∷ s) (e, h) = rw e (rstrip-kept (c ∷ s) (e, h))
