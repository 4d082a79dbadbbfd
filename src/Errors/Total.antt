-- ===== src/Errors/Total.antt =====
-- The bodies of which `parse_error_envelope` makes an error.
use tamga_python.Prelude.{◌≡◌, refl, inl, inr, ℕ, false, Option, none, ◌==◌, Bool-cases}
use tamga_python.Python.Int.{ℤ}
use tamga_python.Python.Str.{Str, Bytes, codes}
use tamga_python.Python.Json.{
  Json, null, str, arr, obj, Items, cons, Fields, end, get_or, is_truthy,
}
use tamga_python.Python.Exc.{Result, ok, err, ◌>>=◌, json_decode_error, attribute_error}
use tamga_python.Errors.{
  ErrorClass, rate_limited, unknown, TamgaError, code_to_exception, lookup, class_of, first_of,
  as_object, or_empty, or_no_error, first_error, dispatch, error_of, parse_error_envelope,
}

-- The bodies that the server documents: no JSON, JSON that is no object, an object without errors,
-- and an envelope whose first error is an object with a text for its code and an object, or
-- nothing, for its source.
pub data Readable (r : Result Json) : Type 0 where
  no_json : r ≡ err json_decode_error → Readable r
  no_object : (v : Json) → r ≡ ok v → as_object v ≡ err attribute_error → Readable r
  no_errors :
      (fields : Fields)
      → r ≡ ok (obj fields)
      → is_truthy (get_or fields (codes "errors") null) ≡ false
      → Readable r
  envelope :
      (fields first source : Fields) (rest : Items) (code : Str)
      → r ≡ ok (obj fields)
      → get_or fields (codes "errors") null ≡ arr (cons (obj first) rest)
      → get_or first (codes "code") (str (codes "UNKNOWN")) ≡ str code
      → or_empty (get_or first (codes "source") null) ≡ obj source
      → Readable r

dispatch-text :
    (status : ℕ) (code : Str) (retry_after : Option ℤ)
    → (p : ErrorClass × Option ℤ) × (dispatch status (str code) retry_after ≡ ok p)
unfolding dispatch class_of
dispatch-text status code retry_after = elim (Bool-cases (status == 429)) [
  | inl e ↦ ((rate_limited, retry_after), rw e refl)
  | inr e ↦ ((lookup code_to_exception code unknown, none), rw e refl)
]

abbrev Returns {ℓ} : {A : Type ℓ} → Result A → Type ℓ
Returns {A = A} r = (a : A) × (r ≡ ok a)

bind-Returns {ℓ κ} :
    {A : Type ℓ} {B : Type κ} (m : Result A) (f : A → Result B) {a : A}
    → m ≡ ok a
    → Returns (f a)
    → Returns (m >>= f)
bind-Returns m f h (b, k) = (b, rw h k)

error_of-Returns :
    (status : ℕ) (retry_after : Option ℤ) (first source : Fields) (code : Str)
    → get_or first (codes "code") (str (codes "UNKNOWN")) ≡ str code
    → or_empty (get_or first (codes "source") null) ≡ obj source
    → Returns (error_of status retry_after first)
unfolding error_of as_object
error_of-Returns status retry_after first source code h k =
    let (p, d) = dispatch-text status code retry_after in
    let d' : dispatch status (get_or first (codes "code") (str (codes "UNKNOWN"))) retry_after
        ≡ ok p =
      rw h d in
    let whole : as_object (or_empty (get_or first (codes "source") null)) ≡ ok source = rw k refl in
    bind-Returns (as_object (or_empty (get_or first (codes "source") null))) _ whole (
      bind-Returns
        (dispatch status (get_or first (codes "code") (str (codes "UNKNOWN"))) retry_after) _ d'
        (_, refl))

no_error-Returns : (status : ℕ) (retry_after : Option ℤ) → Returns (error_of status retry_after end)
no_error-Returns status retry_after =
    error_of-Returns status retry_after end end (codes "UNKNOWN") (unfold get_or in refl)
      (unfold or_empty in unfold get_or in refl)

-- An error is made, and nothing else raised, of every body that is no JSON, that is JSON but no
-- object, that is an object without errors, or that is an envelope whose first error is an object
-- with a text for its code and an object, or nothing, for its source.
pub parse_error_envelope-total :
    (json_loads : Bytes → Result Json) (status : ℕ) (body : Bytes) (retry_after : Option ℤ)
    → Readable (json_loads body)
    → (e : TamgaError) × (parse_error_envelope json_loads status body retry_after ≡ ok e)
unfolding parse_error_envelope first_error or_no_error as_object first_of
parse_error_envelope-total json_loads status body retry_after (no_json h) =
    rw h (no_error-Returns status retry_after)
parse_error_envelope-total json_loads status body retry_after (no_object v h k) =
    rw (h, k) (no_error-Returns status retry_after)
parse_error_envelope-total json_loads status body retry_after (no_errors fields h k) =
    rw (h, k) (no_error-Returns status retry_after)
parse_error_envelope-total json_loads status body retry_after
      (envelope fields first source rest code h k l m) =
    rw (h, k) (error_of-Returns status retry_after first source code l m)
