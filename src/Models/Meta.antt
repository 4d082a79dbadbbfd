-- ===== src/Models/Meta.antt =====
-- What client.py reads of the `meta` of a response: the page of a list, and a validation.
use tamga_python.Prelude.{Bool, false, Option, none, some, List, [], ◌∷◌}
use tamga_python.Python.Int.{ℤ, pos}
use tamga_python.Python.Str.{Str, codes}
use tamga_python.Python.Json.{Json, null, bool, int, str, obj, Fields, get_or, to_int, is_truthy}
use tamga_python.Python.Exc.{Result, ok, ◌>>=◌}
use tamga_python.Models.Enum.{Members, member_of, or_default}
use tamga_python.Models.Validation.{
  ValidationCode, valid, suspended, expired, overdue, product_scope_mismatch, policy_scope_mismatch,
  user_scope_mismatch, environment_scope_mismatch, too_many_machines, too_many_cores,
  too_much_memory, too_much_disk, too_many_processes, not_found, banned, entitlements_missing,
  too_many_users, heartbeat_dead, heartbeat_not_started, fingerprint_scope_mismatch,
  components_scope_mismatch, checksum_scope_mismatch, version_scope_mismatch, unknown, code_value,
}
use tamga_python.Models.Reader.{Reader, instant_of}

-- page{number,size,total,totalPages}
pub record PageMeta : Type 0 where
  pub number : ℤ
  pub size : ℤ
  pub total : ℤ
  pub total_pages : ℤ

-- int(page.get(key, 0))
unfoldable pub page_number : Fields → Str → Result ℤ
unfolding to_int get_or
page_number page key = to_int (get_or page key (int (pos 0)))

-- the members of a page, and zeroes where it is no object
unfoldable pub page_of : Json → Result PageMeta
unfolding page_number
page_of (obj page) = do
  number ← page_number page (codes "number")
  size ← page_number page (codes "size")
  total ← page_number page (codes "total")
  total_pages ← page_number page (codes "totalPages")
  ok (record { number = number; size = size; total = total; total_pages = total_pages })
page_of v = ok (record { number = pos 0; size = pos 0; total = pos 0; total_pages = pos 0 })

unfoldable pub parse_page_meta : Fields → Result PageMeta
unfolding page_of get_or
parse_page_meta meta = page_of (get_or meta (codes "page") null)

abbrev pub all_codes : List ValidationCode
all_codes =
    valid ∷ suspended ∷ expired ∷ overdue ∷ product_scope_mismatch ∷ policy_scope_mismatch
    ∷ user_scope_mismatch ∷ environment_scope_mismatch ∷ too_many_machines ∷ too_many_cores
    ∷ too_much_memory ∷ too_much_disk ∷ too_many_processes ∷ not_found ∷ banned
    ∷ entitlements_missing ∷ too_many_users ∷ heartbeat_dead ∷ heartbeat_not_started
    ∷ fingerprint_scope_mismatch ∷ components_scope_mismatch ∷ checksum_scope_mismatch
    ∷ version_scope_mismatch ∷ unknown ∷ []

abbrev pub with_values : List ValidationCode → Members ValidationCode
with_values [] = []
with_values (code ∷ rest) = (code_value code, code) ∷ with_values rest

-- ValidationCode(v), with `_missing_`
unfoldable pub validation_code_of : Json → ValidationCode
unfolding member_of or_default
validation_code_of v = or_default unknown (member_of (with_values all_codes) v)

pub record ValidationMeta : Type 0 where
  pub ts : ℤ
  pub valid : Bool
  pub detail : Json
  pub code : ValidationCode

abbrev pub instant_or : ℤ → Option ℤ → ℤ
instant_or default none = default
instant_or default (some t) = t

unfoldable pub parse_validation_meta : Reader → Fields → Result ValidationMeta
unfolding validation_code_of instant_of get_or is_truthy
parse_validation_meta rd meta = do
  ts ← instant_of rd meta (codes "ts")
  ok (record {
    ts = instant_or rd.now ts;
    valid = is_truthy (get_or meta (codes "valid") (bool false));
    detail = get_or meta (codes "detail") (str []);
    code = validation_code_of (get_or meta (codes "code") (str (code_value unknown)));
  })
