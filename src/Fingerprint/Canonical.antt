-- ===== src/Fingerprint/Canonical.antt =====
-- The canonical form does not depend on the order of the components or on the whitespace around
-- their values.
use mathlib.Core.HLevel.{hedberg}
use mathlib.Core.Logic.{∥∥₁_elim}
use mathlib.Core.List.{Perm, Permᴰ}
use mathlib.Core.List.Perm
use mathlib.Core.List.Permᴰ
use native.Mathlib.Decide.{ℕ_discrete}
use tamga_python.Prelude.{◌≡◌, refl, ◌∙◌, true, false, List, [], ◌∷◌, ◌++◌, arith, is_empty, All}
use tamga_python.Prelude.Sorting.{sort-eq_of_perm, all-permᴰ}
use tamga_python.Python.Str.{Str, str_eq_comm, is_encodable}
use tamga_python.Python.Str.Strip.{strip-padded}
use tamga_python.Python.Str.Order.{utf8_leb, utf8_leb-IsLinear}
use tamga_python.Python.Exc.{Result}
use tamga_python.Fingerprint.{
  Part, text, mapping, ascii_whitespace, validate_value, contains, encode_pairs, canonical_form,
}
use tamga_python.Fingerprint.Accepted.{label_of, encode, pair_ok, distinct, canonical_form_lem}

contains-permᴰ : (s : Str) {xs ys : List Str} → Permᴰ xs ys → contains xs s ≡ contains ys s
unfolding contains
contains-permᴰ s Permᴰ.nil = refl
contains-permᴰ s (Permᴰ.cons e h) = rw (e, contains-permᴰ s h)
contains-permᴰ s (Permᴰ.swap e f) = rw (e, f) (ground arith)
contains-permᴰ s (Permᴰ.trans h k) = contains-permᴰ s h ∙ contains-permᴰ s k

distinct-swap : (a b : Str) (l : List Str) → distinct (a ∷ b ∷ l) ≡ distinct (b ∷ a ∷ l)
unfolding distinct contains
distinct-swap a b l = ground (arith, str_eq_comm a b)

distinct-cons :
    (s : Str) (l m : List Str)
    → contains l s ≡ contains m s
    → distinct l ≡ distinct m
    → distinct (s ∷ l) ≡ distinct (s ∷ m)
unfolding distinct
distinct-cons s l m h k = rw (h, k)

distinct-permᴰ : {xs ys : List Str} → Permᴰ xs ys → distinct xs ≡ distinct ys
distinct-permᴰ Permᴰ.nil = refl
distinct-permᴰ (Permᴰ.cons {b = b} {l₁ = l} {l₂ = m} e h) =
    rw e (distinct-cons b l m (contains-permᴰ b h) (distinct-permᴰ h))
distinct-permᴰ (Permᴰ.swap e f) = rw (e, f) (distinct-swap _ _ _)
distinct-permᴰ (Permᴰ.trans h k) = distinct-permᴰ h ∙ distinct-permᴰ k

is_empty-permᴰ {ℓ} : {A : Type ℓ} {xs ys : List A} → Permᴰ xs ys → is_empty xs ≡ is_empty ys
is_empty-permᴰ Permᴰ.nil = refl
is_empty-permᴰ (Permᴰ.cons e h) = refl
is_empty-permᴰ (Permᴰ.swap e f) = refl
is_empty-permᴰ (Permᴰ.trans h k) = is_empty-permᴰ h ∙ is_empty-permᴰ k

Text_list-set : IsSet (List Str)
Text_list-set = hedberg (hlevel ℕ_discrete)

Result_text-set : IsSet (Result Str)
Result_text-set = hedberg (hlevel ℕ_discrete)

canonical_form-permᴰ :
    {xs ys : List (Part × Part)}
    → Permᴰ xs ys
    → canonical_form (mapping xs) ≡ canonical_form (mapping ys)
canonical_form-permᴰ {xs} {ys} p = rw (
  canonical_form_lem xs,
  canonical_form_lem ys,
  is_empty-permᴰ p,
  all-permᴰ pair_ok p,
  distinct-permᴰ (Permᴰ.map label_of p),
  all-permᴰ is_encodable (Permᴰ.map encode p),
  sort-eq_of_perm utf8_leb utf8_leb-IsLinear Text_list-set (Perm.map encode ∣ p ∣₁),
)

-- The canonical form, or the exception, is the same for the same components in any order.
pub canonical_form-perm :
    (xs ys : List (Part × Part))
    → Perm xs ys
    → canonical_form (mapping xs) ≡ canonical_form (mapping ys)
canonical_form-perm xs ys p = ∥∥₁_elim p (Result_text-set _ _) canonical_form-permᴰ

validate_value-padded :
    (before after value : Str)
    → All (λ c. ascii_whitespace c ≡ true) before
    → All (λ c. ascii_whitespace c ≡ true) after
    → validate_value (text (before ++ (value ++ after))) ≡ validate_value (text value)
unfolding validate_value
validate_value-padded before after value h k =
    rw (strip-padded ascii_whitespace before after value h k)

encode_pairs-same_value :
    (seen : List Str) (xs ys : List (Part × Part)) (label v w : Part)
    → validate_value v ≡ validate_value w
    → encode_pairs seen (xs ++ (label, v) ∷ ys) ≡ encode_pairs seen (xs ++ (label, w) ∷ ys)
unfolding encode_pairs
encode_pairs-same_value seen [] ys label v w h = rw h
encode_pairs-same_value seen ((l, u) ∷ xs) ys label v w h =
    simp (λ (s : List Str). encode_pairs-same_value s xs ys label v w h)

is_empty-middle {ℓ} : {A : Type ℓ} (xs ys : List A) (x : A) → is_empty (xs ++ x ∷ ys) ≡ false
is_empty-middle [] ys x = refl
is_empty-middle (y ∷ xs) ys x = refl

-- ASCII whitespace before and after a value changes neither the canonical form nor the exception.
pub canonical_form-padded :
    (xs ys : List (Part × Part)) (label : Part) (before after value : Str)
    → All (λ c. ascii_whitespace c ≡ true) before
    → All (λ c. ascii_whitespace c ≡ true) after
    → canonical_form (mapping (xs ++ (label, text (before ++ (value ++ after))) ∷ ys))
      ≡ canonical_form (mapping (xs ++ (label, text value) ∷ ys))
unfolding canonical_form
canonical_form-padded xs ys label before after value h k = rw (
  encode_pairs-same_value [] xs ys label _ _ (validate_value-padded before after value h k),
  is_empty-middle xs ys (label, text (before ++ (value ++ after))),
  is_empty-middle xs ys (label, text value),
)
