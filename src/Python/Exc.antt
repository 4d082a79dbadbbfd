-- ===== src/Python/Exc.antt =====
-- The exceptions that the SDK raises or lets through, Python's subclass relation on them, and
-- fallible code as values. Messages are not kept; what a handler can read besides them is.
use tamga_python.Prelude.{◌≡◌, refl, ◌⊎◌, inl, inr, Bool, true, false, Option, none, some, List}
use tamga_python.Python.Int.{ℤ}
use tamga_python.Python.Str.{Str}

-- The constructors down to `json_decode_error` are Python's own; `request_error` is `httpx`'s
-- RequestError, its timeouts included; the others are those of the `cryptography` package and of
-- the SDK. `tamga_error` carries the HTTP status and the code.
pub data Exc : Type 0 where
  type_error key_error attribute_error index_error overflow_error : Exc
  value_error unicode_error json_decode_error : Exc
  request_error : Exc
  invalid_signature invalid_tag unsupported_algorithm : Exc
  license_file_expired machine_file_expired : ℤ → Exc
  no_usable_signing_key : List Str → Exc
  unknown_signing_key signing_key_not_published : Str → List Str → Exc
  signing_key_not_applicable : Str → Exc
  fingerprint_component_error : Exc
  scheme_not_supported : Exc
  runtime_error : Exc

-- isinstance(e, ValueError)
abbrev pub is_value_error : Exc → Bool
is_value_error value_error = true
is_value_error unicode_error = true
is_value_error json_decode_error = true
is_value_error (license_file_expired exp) = true
is_value_error (machine_file_expired exp) = true
is_value_error (no_usable_signing_key available) = true
is_value_error (unknown_signing_key kid available) = true
is_value_error (signing_key_not_published kid available) = true
is_value_error (signing_key_not_applicable scheme) = true
is_value_error fingerprint_component_error = true
is_value_error _ = false

-- What a call of the SDK comes to: a value that it returns, or what it raises.
pub data Result {κ} (X : Type κ) : Type κ where
  ok : X → Result X
  err : Exc → Result X

infixl 5 ◌>>=◌ ◌>>◌
abbrev pub ◌>>=◌ {κ ν} : {X : Type κ} {Y : Type ν} → Result X → (X → Result Y) → Result Y
err raised >>= next = err raised
ok x >>= next = next x

abbrev pub ◌>>◌ {κ ν} : {X : Type κ} {Y : Type ν} → Result X → Result Y → Result Y
step >> next = step >>= λ ignored. next

-- if not test: raise e
abbrev pub guard : Bool → Exc → Result (Unit {0})
guard false raised = err raised
guard true raised = ok tt

-- A value that is missing where `ValueError` is raised for it.
unfoldable pub or_value_error {κ} : {X : Type κ} → Option X → Result X
or_value_error none = err value_error
or_value_error (some x) = ok x

-- A chain that returns has a first step that returns, and so on from its value.
pub >>=-eq-ok {κ ν} :
    {X : Type κ} {Y : Type ν} (step : Result X) (next : X → Result Y) {y : Y}
    → step >>= next ≡ ok y
    → (x : X) × (step ≡ ok x) × (next x ≡ ok y)
>>=-eq-ok (err raised) next h = cc
>>=-eq-ok (ok x) next h = (x, refl, h)

pub guard-eq-ok : (b : Bool) (e : Exc) {u : Unit} → guard b e ≡ ok u → b ≡ true
guard-eq-ok true e h = refl
guard-eq-ok false e h = cc

-- Every exception of a computation satisfies `P`: a postcondition on the error path.
abbrev pub Raises {ℓ} : (Exc → Type 0) → {A : Type ℓ} → Result A → Type 0
Raises P (ok a) = Unit
Raises P (err e) = P e

-- What the check of a signature lets through.
abbrev pub IsUnsupported : Exc → Type 0
IsUnsupported e = e ≡ unsupported_algorithm

pub Raises-bind {ℓ κ} :
    (P : Exc → Type 0) {A : Type ℓ} {B : Type κ} (m : Result A) (f : A → Result B)
    → Raises P m
    → ((a : A) → m ≡ ok a → Raises P (f a))
    → Raises P (m >>= f)
Raises-bind P (ok a) f h k = k a refl
Raises-bind P (err e) f h k = h

pub Raises-guard : (P : Exc → Type 0) (b : Bool) (e : Exc) → P e → Raises P (guard b e)
Raises-guard P true e h = tt
Raises-guard P false e h = h

-- The value of an equation between results.
pub value_of_ok {ℓ} : {A : Type ℓ} {a b : A} → ◌≡◌ {A = Result A} (ok a) (ok b) → a ≡ b
value_of_ok h = cc h

pub Result-cases {ℓ} :
    {A : Type ℓ} (r : Result A) → ((a : A) × (r ≡ ok a)) ⊎ ((e : Exc) × (r ≡ err e))
Result-cases (ok a) = inl (a, refl)
Result-cases (err e) = inr (e, refl)
