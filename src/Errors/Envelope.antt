-- ===== src/Errors/Envelope.antt =====
-- What the dispatch of an error envelope guarantees.
use mathlib.Core.Path.{subst}
use tamga_python.Prelude.{
  ◌≡◌, ◌≢◌, refl, sym, ap, ◌∙◌, ◌⊎◌, inl, inr, ℕ, Bool, true, false, not, Option, none, List, [],
  ◌∷◌, arith, ◌==◌, ==_iff, all, All, Bool-cases,
}
use tamga_python.Python.Int.{ℤ}
use tamga_python.Python.Str.{Str, Bytes, codes, str_eq, str_eq_iff}
use tamga_python.Python.Json.{Json, null, str, arr, obj, get_or}
use tamga_python.Python.Exc.{Result, ok, >>=-eq-ok}
use tamga_python.Errors.{
  ErrorClass, rate_limited, unknown, TamgaError, code_to_exception, lookup, class_of, as_object,
  or_empty, or_no_error, first_error, meta_of, dispatch, error_of, parse_error_envelope,
}

abbrev is_rate_limited : ErrorClass → Bool
is_rate_limited rate_limited = true
is_rate_limited _ = false

-- A lookup returns the default or the value of an entry.
lookup-all {ℓ} :
    {A : Type ℓ} (p : A → Bool) (table : List (Str × A)) (code : Str) (default : A)
    → all (λ (entry : Str × A). p entry.1) table ≡ true
    → p default ≡ true
    → p (lookup table code default) ≡ true
unfolding lookup
lookup-all p [] code default h k = k
lookup-all p ((key, v) ∷ table) code default h k = elim (Bool-cases (str_eq key code)) [
  | inl e ↦ rw e (ground arith)
  | inr e ↦ rw e (lookup-all p table code default (ground arith) k)
]

not-eq-true : (b : Bool) → not b ≡ true → b ≡ false
not-eq-true true h = absurd (ground arith)
not-eq-true false h = refl

same_class : {k l : ErrorClass} → ◌≡◌ {A = Result ErrorClass} (ok k) (ok l) → k ≡ l
same_class h = cc h

class_of-not_rate_limited :
    (code : Json) (class : ErrorClass) → class_of code ≡ ok class → is_rate_limited class ≡ false
unfolding class_of
class_of-not_rate_limited (str s) class h =
    let same : lookup code_to_exception s unknown ≡ class = cc h in
    let kept = lookup-all (λ k. not (is_rate_limited k)) code_to_exception s unknown refl refl in
    not-eq-true (is_rate_limited class) (rw same at kept)
class_of-not_rate_limited null class h = subst (λ k. is_rate_limited k ≡ false) (same_class h) refl
class_of-not_rate_limited (Json.bool b) class h =
    subst (λ k. is_rate_limited k ≡ false) (same_class h) refl
class_of-not_rate_limited (Json.int b) class h =
    subst (λ k. is_rate_limited k ≡ false) (same_class h) refl
class_of-not_rate_limited (Json.float b) class h =
    subst (λ k. is_rate_limited k ≡ false) (same_class h) refl
class_of-not_rate_limited (arr b) class h = absurd (cc h)
class_of-not_rate_limited (obj b) class h = absurd (cc h)

lookup-missing {ℓ} :
    {A : Type ℓ} (table : List (Str × A)) (code : Str) (default : A)
    → All (λ (entry : Str × A). entry.0 ≢ code) table
    → lookup table code default ≡ default
unfolding lookup
lookup-missing [] code default h = refl
lookup-missing ((key, v) ∷ table) code default (ne, h) = elim (Bool-cases (str_eq key code)) [
  | inl e ↦ absurd (ne ((str_eq_iff key code).0 e))
  | inr e ↦ rw e (lookup-missing table code default h)
]

-- Each code of the table is dispatched to its own class, none is shadowed by another entry, and
-- a code that is in no entry is dispatched to UnknownTamgaError.
class_of_lem :
    All (λ (entry : Str × ErrorClass). class_of (str entry.0) ≡ ok entry.1) code_to_exception
    × ((code : Str)
        → All (λ (entry : Str × ErrorClass). entry.0 ≢ code) code_to_exception
        → class_of (str code) ≡ ok unknown)
unfolding class_of lookup str_eq
class_of_lem = (ground arith, λ code h. ap ok (lookup-missing code_to_exception code unknown h))

-- The class and the wait that belong to a status and a code.
abbrev pub Classed : ℕ → Json → Option ℤ → ErrorClass → Option ℤ → Type 0
Classed status code retry_after class wait =
    ((status ≡ 429) × (class ≡ rate_limited) × (wait ≡ retry_after))
    ⊎ ((status ≢ 429)
        × (is_rate_limited class ≡ false)
        × (wait ≡ none)
        × (class_of code ≡ ok class))

same_pair :
    {k l : ErrorClass} {v w : Option ℤ}
    → ◌≡◌ {A = Result (ErrorClass × Option ℤ)} (ok (k, v)) (ok (l, w))
    → (k ≡ l) × (v ≡ w)
same_pair {k} {l} {v} {w} h =
    let same : ◌≡◌ {A = ErrorClass × Option ℤ} (k, v) (l, w) = cc h in
    (ap (λ (p : ErrorClass × Option ℤ). p.0) same, ap (λ (p : ErrorClass × Option ℤ). p.1) same)

dispatch-Classed :
    (status : ℕ) (code : Json) (retry_after : Option ℤ) (class : ErrorClass) (wait : Option ℤ)
    → dispatch status code retry_after ≡ ok (class, wait)
    → Classed status code retry_after class wait
unfolding dispatch
dispatch-Classed status code retry_after class wait h = elim (Bool-cases (status == 429)) [
  | inl e ↦ let (k, v) = same_pair (rw e at h) in inl ((==_iff status 429).0 e, sym k, sym v)
  | inr e ↦
      let (k, classed, h1) = >>=-eq-ok (class_of code) _ (rw e at h) in
      let (same, v) = same_pair h1 in
      inr (
        (λ same_status. absurd (ground arith)),
        subst (λ l. is_rate_limited l ≡ false) same (class_of-not_rate_limited code k classed),
        sym v,
        classed ∙ ap ok same,
      )
]

-- An error that is returned has the given status. It is a RateLimitedError, with the given wait,
-- exactly when the status is 429, whatever the code of the envelope; under another status its
-- class is the one of the code that it carries.
pub parse_error_envelope-class :
    (json_loads : Bytes → Result Json) (status : ℕ) (body : Bytes) (retry_after : Option ℤ)
    (e : TamgaError)
    → parse_error_envelope json_loads status body retry_after ≡ ok e
    → (e.status ≡ status) × Classed status e.code retry_after e.class e.retry_after
unfolding parse_error_envelope error_of
parse_error_envelope-class json_loads status body retry_after e h =
    let (raw_first, h0, h1) = >>=-eq-ok (or_no_error (first_error json_loads body)) _ h in
    let (first, h2, h3) = >>=-eq-ok (as_object raw_first) _ h1 in
    let (source, h4, h5) =
      >>=-eq-ok (as_object (or_empty (get_or first (codes "source") null))) _ h3 in
    let code = get_or first (codes "code") (str (codes "UNKNOWN")) in
    let ((class, wait), h6, h7) = >>=-eq-ok (dispatch status code retry_after) _ h5 in
    let classed = dispatch-Classed status code retry_after class wait h6 in
    let same : record {
      class = class;
      status = status;
      code = code;
      detail = get_or first (codes "detail") (str []);
      pointer = get_or source (codes "pointer") null;
      meta = meta_of (get_or first (codes "meta") null);
      retry_after = wait;
    }
        ≡ e =
      cc h7 in
    subst
      (λ (w : TamgaError).
        (w.status ≡ status) × Classed status w.code retry_after w.class w.retry_after)
      same (refl, classed)
