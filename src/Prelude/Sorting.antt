-- ===== src/Prelude/Sorting.antt =====
-- Stable insertion sort by a Boolean order, as Python's `list.sort(key=...)` orders a list.
use mathlib.Core.Path.{◌≡◌, refl, ◌∙◌}
use mathlib.Core.Logic.{◌⊎◌, inl, inr, ∥∥₁_elim}
use mathlib.Core.Bool.{Bool, true}
use mathlib.Core.List.{List, [], ◌∷◌, Perm, Permᴰ}
use mathlib.Core.List.Perm
use mathlib.Core.HLevel.{hedberg}
use native.Mathlib.Omega.{arith}
use tamga_python.Prelude.Tests.{if◌then◌else◌, Bool-cases}
use tamga_python.Prelude.Lists.{all}

module _ {ℓ} {A : Type ℓ} (le : A → A → Bool) where
  unfoldable pub insert : A → List A → List A
  insert x [] = x ∷ []
  insert x (y ∷ ys) = if le x y then x ∷ y ∷ ys else y ∷ insert x ys

  unfoldable pub sort : List A → List A
  unfolding insert
  sort [] = []
  sort (x ∷ xs) = insert x (sort xs)

  insert-perm : (x : A) (ys : List A) → Perm (insert x ys) (x ∷ ys)
  unfolding insert
  insert-perm x [] = Perm.refl (x ∷ [])
  insert-perm x (y ∷ ys) = elim (Bool-cases (le x y)) [
    | inl e ↦ rw e (Perm.refl (x ∷ y ∷ ys))
    | inr e ↦ rw e (Perm.trans (Perm.cons y (insert-perm x ys)) (Perm.swap x y ys))
  ]

  pub sort-perm : (xs : List A) → Perm (sort xs) xs
  unfolding sort
  sort-perm [] = Perm.refl []
  sort-perm (x ∷ xs) = Perm.trans (insert-perm x (sort xs)) (Perm.cons x (sort-perm xs))

Bool-set : IsSet Bool
Bool-set = hedberg (hlevel)

-- A linear order given as a Boolean test.
pub record IsLinear {ℓ} {A : Type ℓ} (le : A → A → Bool) : Type ℓ where
  pub total : (a b : A) → (le a b ≡ true) ⊎ (le b a ≡ true)
  pub trans : (a b c : A) → le a b ≡ true → le b c ≡ true → le a c ≡ true
  pub antisymm : (a b : A) → le a b ≡ true → le b a ≡ true → a ≡ b

module _ {ℓ} {A : Type ℓ} (le : A → A → Bool) (o : IsLinear le) where
  insert_comm :
      (x y : A) (zs : List A) → insert le x (insert le y zs) ≡ insert le y (insert le x zs)
  unfolding insert
  insert_comm x y [] = ground (arith, o.total x y, o.antisymm x y)
  insert_comm x y (z ∷ zs) = ground (
    arith,
    o.total x y,
    o.antisymm x y,
    o.trans x y z,
    o.trans y x z,
    o.total x z,
    o.total y z,
    insert_comm x y zs,
  )

  sort-permᴰ : {xs ys : List A} → Permᴰ xs ys → sort le xs ≡ sort le ys
  unfolding sort
  sort-permᴰ Permᴰ.nil = refl
  sort-permᴰ (Permᴰ.cons {b = b} {l₁ = l} e p) = rw (e, sort-permᴰ p)
  sort-permᴰ (Permᴰ.swap {l = l} e f) = rw (e, f) (insert_comm _ _ (sort le l))
  sort-permᴰ (Permᴰ.trans p q) = sort-permᴰ p ∙ sort-permᴰ q

  -- The sorted list depends on the entries, not on their order.
  pub sort-eq_of_perm :
      (is_set : IsSet (List A)) {xs ys : List A} → Perm xs ys → sort le xs ≡ sort le ys
  sort-eq_of_perm is_set p = ∥∥₁_elim p (is_set _ _) sort-permᴰ

module _ {ℓ} {A : Type ℓ} (p : A → Bool) where
  pub all-permᴰ : {xs ys : List A} → Permᴰ xs ys → all p xs ≡ all p ys
  all-permᴰ Permᴰ.nil = refl
  all-permᴰ (Permᴰ.cons e h) = rw (e, all-permᴰ h)
  all-permᴰ (Permᴰ.swap e f) = rw (e, f) (ground arith)
  all-permᴰ (Permᴰ.trans h k) = all-permᴰ h ∙ all-permᴰ k

  pub all-perm : {xs ys : List A} → Perm xs ys → all p xs ≡ all p ys
  all-perm h = ∥∥₁_elim h (Bool-set _ _) all-permᴰ
