-- ===== src/Checkout/MachineFile/Algorithm.antt =====
-- The closed set of machine-file algorithms.
use mathlib.Core.Path.{subst}
use tamga_python.Prelude.{
  ◌≡◌, refl, ◌∙◌, ap, inl, inr, true, ◌&&◌, List, [], ◌∷◌, arith, any, Any, Bool-cases,
}
use tamga_python.Python.Str.{Str, str_eq, str_eq_iff, partition, rpartition}
use tamga_python.Python.Exc.{Result, ok, ◌>>◌, guard, >>=-eq-ok, guard-eq-ok, value_error}
use tamga_python.Checkout.MachineFile.{
  enc_prefixes, signing_suffixes, algorithm, valid_algorithms, validate_alg, alg_v2_marker,
}

-- An encoding prefix that the server writes, and a signing suffix that it writes.
abbrev pub IsPrefix : Str → Type 0
IsPrefix p = Any (λ q. p ≡ q) enc_prefixes

abbrev pub IsSuffix : Str → Type 0
IsSuffix s = Any (λ q. s ≡ q) signing_suffixes

any-str_eq : (a : Str) (xs : List Str) → any (str_eq a) xs ≡ true → Any (λ x. a ≡ x) xs
any-str_eq a [] h = absurd (ground arith)
any-str_eq a (x ∷ xs) h = elim (Bool-cases (str_eq a x)) [
  | inl e ↦ inl ((str_eq_iff a x).0 e)
  | inr e ↦ inr (any-str_eq a xs (rw e at h))
]

-- A valid algorithm is read as the prefix and the suffix that it was built of.
validate_alg-valid :
    (prefix suffix : Str)
    → IsPrefix prefix
    → IsSuffix suffix
    → validate_alg (algorithm prefix suffix) ≡ ok (prefix, suffix)
unfolding validate_alg
validate_alg-valid p s (inl e) (inl f) = rw (e, f)
validate_alg-valid p s (inl e) (inr (inl f)) = rw (e, f)
validate_alg-valid p s (inl e) (inr (inr (inl f))) = rw (e, f)
validate_alg-valid p s (inl e) (inr (inr (inr (inl f)))) = rw (e, f)
validate_alg-valid p s (inr (inl e)) (inl f) = rw (e, f)
validate_alg-valid p s (inr (inl e)) (inr (inl f)) = rw (e, f)
validate_alg-valid p s (inr (inl e)) (inr (inr (inl f))) = rw (e, f)
validate_alg-valid p s (inr (inl e)) (inr (inr (inr (inl f)))) = rw (e, f)
validate_alg-valid p s (inl e) (inr (inr (inr (inr x)))) = absurd x
validate_alg-valid p s (inr (inl e)) (inr (inr (inr (inr x)))) = absurd x
validate_alg-valid p s (inr (inr x)) f = absurd x

Splits : Str → Type 0
Splits alg = (p : Str) × (s : Str) × IsPrefix p × IsSuffix s × (alg ≡ algorithm p s)

split_valid : (alg : Str) → Any (λ x. alg ≡ x) valid_algorithms → Splits alg
unfolding Splits
split_valid alg (inl e) = (_, _, inl refl, inl refl, e)
split_valid alg (inr (inl e)) = (_, _, inl refl, inr (inl refl), e)
split_valid alg (inr (inr (inl e))) = (_, _, inl refl, inr (inr (inl refl)), e)
split_valid alg (inr (inr (inr (inl e)))) = (_, _, inl refl, inr (inr (inr (inl refl))), e)
split_valid alg (inr (inr (inr (inr (inl e))))) = (_, _, inr (inl refl), inl refl, e)
split_valid alg (inr (inr (inr (inr (inr (inl e)))))) = (_, _, inr (inl refl), inr (inl refl), e)
split_valid alg (inr (inr (inr (inr (inr (inr (inl e))))))) =
    (_, _, inr (inl refl), inr (inr (inl refl)), e)
split_valid alg (inr (inr (inr (inr (inr (inr (inr (inl e)))))))) =
    (_, _, inr (inl refl), inr (inr (inr (inl refl))), e)
split_valid alg (inr (inr (inr (inr (inr (inr (inr (inr x)))))))) = absurd x

validate_alg-member :
    (alg : Str) {parts : Str × Str}
    → validate_alg alg ≡ ok parts
    → any (str_eq alg) valid_algorithms ≡ true
unfolding validate_alg
validate_alg-member alg h =
    let first = partition b'+' alg in
    let last = rpartition b'+' first.after in
    let marked = first.found && last.found && str_eq last.after alg_v2_marker in
    let valid = any (str_eq alg) valid_algorithms in
    let rest : Result (Str × Str) = guard valid value_error >> ok (first.before, last.before) in
    let (u, ge, h1) = >>=-eq-ok (guard marked value_error) (λ _. rest) h in
    let (v, hv, h2) =
      >>=-eq-ok (guard valid value_error) (λ _. ok (first.before, last.before)) h1 in
    guard-eq-ok valid value_error hv

-- The algorithm of a file is accepted exactly when it is an encoding prefix and a signing suffix of
-- the closed sets, each followed by a plus sign, and the marker of format v2; the two parts that
-- are returned are that prefix and that suffix.
pub validate_alg_iff :
    (alg prefix suffix : Str)
    → (validate_alg alg ≡ ok (prefix, suffix)
        → IsPrefix prefix × IsSuffix suffix × (alg ≡ algorithm prefix suffix))
      × (IsPrefix prefix × IsSuffix suffix × (alg ≡ algorithm prefix suffix)
          → validate_alg alg ≡ ok (prefix, suffix))
unfolding Splits
validate_alg_iff alg prefix suffix = (
  λ h.
      let (p, s, hp, hs, e) =
        split_valid alg (any-str_eq alg valid_algorithms (validate_alg-member alg h)) in
      let same : ◌≡◌ {A = Str × Str} (p, s) (prefix, suffix) =
        cc (rw e at h, validate_alg-valid p s hp hs) in
      let same_prefix : p ≡ prefix = ap (λ (q : Str × Str). q.0) same in
      let same_suffix : s ≡ suffix = ap (λ (q : Str × Str). q.1) same in
      (
        subst (λ (q : Str). IsPrefix q) same_prefix hp,
        subst (λ (q : Str). IsSuffix q) same_suffix hs,
        e ∙ ap (λ (q : Str × Str). algorithm q.0 q.1) same,
      ),
  λ (hp, hs, e). rw e (validate_alg-valid prefix suffix hp hs),
)
