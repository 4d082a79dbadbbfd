-- ===== src/Python/Json.antt =====
-- The values that `json.loads` returns, and the accesses that the SDK makes on them.
use tamga_python.Prelude.{Bool, true, false, not, Option, none, some, if◌then◌else◌, is_empty, ◌==◌}
use tamga_python.Python.Int.{ℤ, pos, negsuc, int_of_text}
use tamga_python.Python.Str.{Str, str_eq, strip, is_space}
use tamga_python.Python.Exc.{Result, ok, err, type_error, key_error, overflow_error, value_error}

-- Of a finite float the integer part is kept, and whether it is zero. `json.loads` also reads
-- Infinity and NaN.
pub data Float : Type 0 where
  finite : ℤ → Bool → Float
  infinity nan : Float

mutual
  pub data Json : Type 0 where
    null : Json
    bool : Bool → Json
    int : ℤ → Json
    float : Float → Json
    str : Str → Json
    arr : Items → Json
    obj : Fields → Json

  pub data Items : Type 0 where
    nil : Items
    cons : Json → Items → Items

  pub data Fields : Type 0 where
    end : Fields
    field : Str → Json → Fields → Fields

-- d.get(k)
unfoldable pub get : Fields → Str → Option Json
get end k = none
get (field j v fs) k = if str_eq j k then some v else get fs k

-- d.get(k), with None for JSON's null too
abbrev pub not_none : Option Json → Option Json
not_none (some null) = none
not_none o = o

-- d[k]
unfoldable pub subscript : Fields → Str → Result Json
unfolding get
subscript fs k = elim (get fs k) [ none ↦ err key_error | some v ↦ ok v ]

-- v[k] with a text `k`, on a value of any type
unfoldable pub index_by : Json → Str → Result Json
unfolding subscript
index_by (obj fs) k = subscript fs k
index_by _ k = err type_error

-- isinstance(v, dict) and isinstance(v, str), as results that keep the contents
unfoldable pub as_dict : Json → Option Fields
as_dict (obj fs) = some fs
as_dict _ = none

unfoldable pub as_str : Json → Option Str
as_str (str s) = some s
as_str _ = none

-- int(v); a text is read without its surrounding whitespace
unfoldable pub to_int : Json → Result ℤ
unfolding int_of_text strip
to_int null = err type_error
to_int (bool b) = ok (if b then pos 1 else pos 0)
to_int (int n) = ok n
to_int (float (finite n is_zero)) = ok n
to_int (float infinity) = err overflow_error
to_int (float nan) = err value_error
to_int (str s) = elim (int_of_text (strip is_space s)) [ none ↦ err value_error | some n ↦ ok n ]
to_int (arr items) = err type_error
to_int (obj fields) = err type_error

-- str(v), where `repr` writes the values that are no text
abbrev pub to_str : (Json → Str) → Json → Str
to_str repr (str s) = s
to_str repr v = repr v

-- d.get(k, default)
unfoldable pub get_or : Fields → Str → Json → Json
unfolding get
get_or fs k default = elim (get fs k) [ none ↦ default | some v ↦ v ]

is_zero_ℤ : ℤ → Bool
is_zero_ℤ (pos n) = n == 0
is_zero_ℤ (negsuc n) = false

-- bool(v)
unfoldable pub is_truthy : Json → Bool
unfolding is_zero_ℤ
is_truthy null = false
is_truthy (bool b) = b
is_truthy (int n) = not (is_zero_ℤ n)
is_truthy (float (finite n is_zero)) = not is_zero
is_truthy (float infinity) = true
is_truthy (float nan) = true
is_truthy (str s) = not (is_empty s)
is_truthy (arr nil) = false
is_truthy (arr (cons v items)) = true
is_truthy (obj end) = false
is_truthy (obj (field k v fields)) = true
