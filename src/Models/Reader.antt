-- ===== src/Models/Reader.antt =====
-- What the parsers of client.py read resources with: UUIDs, instants, and members of objects.
use tamga_python.Prelude.{Option, none, some, List, [], ◌∷◌, ◌++◌, ◌==◌, if◌then◌else◌}
use tamga_python.Python.Int.{ℤ}
use tamga_python.Python.Str.{Str, codes}
use tamga_python.Python.Json.{
  Json, null, str, arr, obj, Items, nil, cons, Fields, end, field, get_or, to_str, index_by,
  is_truthy,
}
use tamga_python.Python.Exc.{Result, ok, err, ◌>>=◌, or_value_error, attribute_error, type_error}
use tamga_python.Errors.{or_empty}

-- `uuid` is Python's `UUID`, written back as text, and `fromisoformat` gives the microseconds since
-- the epoch; both are `none` where Python raises ValueError.
pub record Reader : Type 0 where
  pub uuid : Str → Option Str
  pub fromisoformat : Str → Option ℤ
  pub repr : Json → Str
  -- datetime.now(timezone.utc)
  pub now : ℤ

-- value.replace("Z", "+00:00")
unfoldable pub replace_z : Str → Str
replace_z [] = []
replace_z (c ∷ s) = (if c == b'Z' then codes "+00:00" else c ∷ []) ++ replace_z s

-- the attributes of a resource, an empty object where it has none
unfoldable pub attributes_of : Fields → Json
unfolding get_or
attributes_of resource = get_or resource (codes "attributes") (obj end)

-- attrs.get("metadata") or {}
unfoldable pub metadata_of : Fields → Json
unfolding get_or or_empty
metadata_of attrs = or_empty (get_or attrs (codes "metadata") null)

module _ (rd : Reader) where
  -- UUID(str(v))
  unfoldable pub uuid_of : Json → Result Str
  unfolding or_value_error
  uuid_of v = or_value_error (rd.uuid (to_str rd.repr v))

  -- _parse_datetime; only a text has the method `replace`
  unfoldable pub parse_datetime : Json → Result (Option ℤ)
  unfolding or_value_error replace_z
  parse_datetime null = ok none
  parse_datetime (str s) = do t ← or_value_error (rd.fromisoformat (replace_z s)); ok (some t)
  parse_datetime v = err attribute_error

  -- UUID(str(data["id"]))
  unfoldable pub id_of : Json → Result Str
  unfolding uuid_of index_by
  id_of data_member = do raw ← index_by data_member (codes "id"); uuid_of raw

  -- _parse_datetime(attrs.get(key))
  unfoldable pub instant_of : Fields → Str → Result (Option ℤ)
  unfolding parse_datetime get_or
  instant_of attrs key = parse_datetime (get_or attrs key null)

-- The values that a loop over `v or []` goes through: an object gives its keys and a text its
-- characters.
unfoldable pub keys_of : Fields → Items
keys_of end = nil
keys_of (field k v fields) = cons (str k) (keys_of fields)

unfoldable pub chars_of : Str → Items
chars_of [] = nil
chars_of (c ∷ s) = cons (str (c ∷ [])) (chars_of s)

unfoldable pub each_of : Json → Result Items
unfolding keys_of chars_of is_truthy
each_of (arr items) = ok items
each_of (obj fields) = ok (keys_of fields)
each_of (str s) = ok (chars_of s)
each_of v = if is_truthy v then err type_error else ok nil

unfoldable pub parse_items {ℓ} : {A : Type ℓ} → (Json → Result A) → Items → Result (List A)
parse_items parse nil = ok []
parse_items parse (cons v items) = do a ← parse v; rest ← parse_items parse items; ok (a ∷ rest)

-- [parse(d) for d in (v or [])]
unfoldable pub parse_each {ℓ} : {A : Type ℓ} → (Json → Result A) → Json → Result (List A)
unfolding each_of parse_items
parse_each parse v = do items ← each_of v; parse_items parse items
