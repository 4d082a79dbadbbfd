-- ===== src/Client/Pages/Rows.antt =====
-- How a server cuts its rows into pages.
use tamga_python.Prelude.{
  ◌≡◌, ◌≢◌, refl, ap, ℕ, zero, suc, ◌≤◌, ◌<◌, inl, inr, false, Option, none, some, List, [], ◌∷◌,
  ◌++◌, arith, ltb, length, take, drop, length-take, take-ge, All, Bool-cases, if◌then◌else◌,
}
use tamga_python.Python.Int.{ℤ, pos, negsuc, ◌≤ℤ◌, pos_part}
use tamga_python.Python.Str.{Str, str_eq, str_eq_iff, str_eq_self}
use tamga_python.Client.Pages.{last_or}

-- The page size that the server applies: the limit, clamped to 1..100.
abbrev pub clamped : ℤ → ℕ
clamped (pos zero) = 1
clamped (pos (suc n)) = if ltb 100 (suc n) then 100 else suc n
clamped (negsuc n) = 1

pub clamped-ge : (limit : ℤ) → 1 ≤ clamped limit
clamped-ge (pos zero) = omega arith
clamped-ge (pos (suc n)) = ground arith
clamped-ge (negsuc n) = omega arith

pub clamped-cut : (limit : ℤ) → 100 < pos_part limit → clamped limit ≡ 100
clamped-cut (pos zero) h = absurd (omega (arith, h))
clamped-cut (pos (suc n)) h = ground arith
clamped-cut (negsuc n) h = absurd (omega (arith, h))

pub clamped-kept : (limit : ℤ) → limit ≤ℤ pos 100 → pos_part limit ≤ clamped limit
clamped-kept (pos zero) h = omega arith
clamped-kept (pos (suc n)) h = ground arith
clamped-kept (negsuc n) h = omega arith

module _ {ℓ} {A : Type ℓ} (id_of : A → Str) where
  -- The rows after the row that a cursor names.
  abbrev pub after_row : Str → List A → List A
  after_row cursor [] = []
  after_row cursor (x ∷ xs) =
      let rest = after_row cursor xs in if str_eq (id_of x) cursor then xs else rest

  abbrev pub rows_after : List A → Option Str → List A
  rows_after rows none = rows
  rows_after rows (some cursor) = after_row cursor rows

  -- No two rows have the same id.
  abbrev pub Keyed : List A → Type 0
  Keyed [] = Unit
  Keyed (x ∷ xs) = All (λ y. id_of x ≢ id_of y) xs × Keyed xs

  ids-differ :
      (y x : A) (init post : List A)
      → All (λ z. id_of y ≢ id_of z) (init ++ x ∷ post)
      → str_eq (id_of y) (id_of x) ≡ false
  ids-differ y x [] post (h, hs) = elim (Bool-cases (str_eq (id_of y) (id_of x))) [
    | inl e ↦ absurd (h ((str_eq_iff (id_of y) (id_of x)).0 e))
    | inr e ↦ e
  ]
  ids-differ y x (z ∷ init) post (h, hs) = ids-differ y x init post hs

  pub after_row-append :
      (init : List A) (x : A) (post : List A)
      → Keyed (init ++ x ∷ post)
      → after_row (id_of x) (init ++ x ∷ post) ≡ post
  after_row-append [] x post keyed = rw (str_eq_self (id_of x)) refl
  after_row-append (y ∷ init) x post (differs, keyed) =
      rw (ids-differ y x init post differs, after_row-append init x post keyed) refl

  -- A list that is not empty, split at the last row of its first page.
  pub split-last :
      (x : A) (xs : List A) (m : ℕ)
      → (init : List A) × (x ∷ xs ≡ init ++ last_or x (take m xs) ∷ drop m xs)
  split-last x xs zero = ([], refl)
  split-last x [] (suc m) = ([], refl)
  split-last x (y ∷ ys) (suc m) = let (init, e) = split-last y ys m in (x ∷ init, ap (λ r. x ∷ r) e)

  pub take-short : (n : ℕ) (xs : List A) → length (take n xs) < n → take n xs ≡ xs
  take-short n xs h = take-ge n xs (omega (arith, h, length-take n xs))

  pub take-drop : (n : ℕ) (xs : List A) → take n xs ++ drop n xs ≡ xs
  take-drop zero xs = refl
  take-drop (suc n) [] = refl
  take-drop (suc n) (x ∷ xs) = ap (λ r. x ∷ r) (take-drop n xs)

  pub take-nil : (n : ℕ) → ◌≡◌ {A = List A} (take n []) []
  take-nil zero = refl
  take-nil (suc n) = refl
