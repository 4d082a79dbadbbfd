-- ===== src/Models/Policy/Parsing.antt =====
-- `PolicyResource.from_api` of models/policy.py, and `_parse_policy_resource` of client.py.
use tamga_python.Prelude.{Bool, false, Option, none, some, [], ◌∷◌, if◌then◌else◌}
use tamga_python.Python.Str.{Str, codes, str_eq}
use tamga_python.Python.Json.{
  Json, null, bool, int, str, arr, obj, Items, nil, cons, Fields, end, field, get, get_or,
  subscript, is_truthy,
}
use tamga_python.Python.Exc.{Result, ok, err, ◌>>=◌, value_error, type_error}
use tamga_python.Errors.{as_object}
use tamga_python.Models.Machine.{LicenseScheme}
use tamga_python.Models.Enum.{member_of, strict, lenient}
use tamga_python.Models.Policy.{HeartbeatPolicy}
use tamga_python.Models.Policy.Strategies.{
  OverageStrategy, no_overage, overage_strategies, HeartbeatCullStrategy, deactivate_dead,
  cull_strategies, HeartbeatResurrectionStrategy, no_revive, resurrection_strategies,
  license_schemes, CheckInInterval, check_in_interval_of,
}
use tamga_python.Models.Reader.{Reader, uuid_of}

-- A member that the parser takes over without a look is kept as the JSON that it is.
pub record PolicyResource : Type 0 where
  pub id : Str
  pub overage_strategy : OverageStrategy
  pub heartbeat_cull_strategy : HeartbeatCullStrategy
  pub heartbeat_resurrection_strategy : HeartbeatResurrectionStrategy
  pub check_in_interval : Option CheckInInterval
  pub require_check_in : Bool
  pub scheme : Option LicenseScheme
  pub expiration_strategy : Json
  pub renewal_basis : Json
  pub authentication_strategy : Json
  pub max_machines : Json
  pub max_cores : Json
  pub max_processes : Json
  pub heartbeat_duration : Json
  pub require_heartbeat : Bool
  pub machine_uniqueness_strategy : Json

-- LicenseScheme(v) if v is not None else None
unfoldable pub scheme_of : Json → Result (Option LicenseScheme)
unfolding member_of
scheme_of null = ok none
scheme_of v = elim (member_of license_schemes v) [
  | none ↦ err value_error
  | some scheme ↦ ok (some scheme)
]

-- UUID(int=0)
abbrev pub nil_uuid : Str
nil_uuid = codes "00000000-0000-0000-0000-000000000000"

-- UUID(str(attributes["id"])) if "id" in attributes else UUID(int=0)
unfoldable pub policy_id : Reader → Option Json → Result Str
unfolding uuid_of
policy_id rd none = ok nil_uuid
policy_id rd (some v) = uuid_of rd v

unfoldable pub from_api : Reader → Fields → Result PolicyResource
unfolding policy_id scheme_of get get_or is_truthy strict lenient check_in_interval_of
from_api rd attributes = do
  let overage =
      lenient overage_strategies no_overage (get_or attributes (codes "overage_strategy") null)
  let resurrection =
      lenient resurrection_strategies no_revive
        (get_or attributes (codes "heartbeat_resurrection_strategy") null)
  cull ←
      strict cull_strategies deactivate_dead
        (get_or attributes (codes "heartbeat_cull_strategy") null)
  check_in_interval ← check_in_interval_of (get_or attributes (codes "check_in_interval") null)
  scheme ← scheme_of (get_or attributes (codes "scheme") null)
  id ← policy_id rd (get attributes (codes "id"))
  ok (record {
    id = id;
    overage_strategy = overage;
    heartbeat_cull_strategy = cull;
    heartbeat_resurrection_strategy = resurrection;
    check_in_interval = check_in_interval;
    require_check_in = is_truthy (get_or attributes (codes "require_check_in") (bool false));
    scheme = scheme;
    expiration_strategy =
        get_or attributes (codes "expiration_strategy") (str (codes "RESTRICT_ACCESS"));
    renewal_basis = get_or attributes (codes "renewal_basis") (str (codes "FROM_EXPIRY"));
    authentication_strategy =
        get_or attributes (codes "authentication_strategy") (str (codes "TOKEN"));
    max_machines = get_or attributes (codes "max_machines") null;
    max_cores = get_or attributes (codes "max_cores") null;
    max_processes = get_or attributes (codes "max_processes") null;
    heartbeat_duration = get_or attributes (codes "heartbeat_duration") null;
    require_heartbeat = is_truthy (get_or attributes (codes "require_heartbeat") (bool false));
    machine_uniqueness_strategy =
        get_or attributes (codes "machine_uniqueness_strategy") (str (codes "UNIQUE_PER_LICENSE"));
  })

-- d[k] = v
unfoldable pub put : Fields → Str → Json → Fields
unfolding str_eq
put end k v = field k v end
put (field j w fields) k v =
    let rest = put fields k v in if str_eq j k then field j v fields else field j w rest

-- The entry that one item of a sequence makes of a dictionary under construction. A key that is no
-- text leaves the texts alone.
unfoldable pub put_entry : Fields → Json → Json → Result Fields
unfolding put
put_entry fields (str k) v = ok (put fields k v)
put_entry fields (arr items) v = err type_error
put_entry fields (obj members) v = err type_error
put_entry fields k v = ok fields

-- An item is a sequence of two: a list, a text of two characters, or an object of two keys.
unfoldable pub put_item : Fields → Json → Result Fields
unfolding put_entry
put_item fields (arr (cons k (cons v nil))) = put_entry fields k v
put_item fields (arr items) = err value_error
put_item fields (str (c ∷ d ∷ [])) = put_entry fields (str (c ∷ [])) (str (d ∷ []))
put_item fields (str s) = err value_error
put_item fields (obj (field j v (field k w end))) = put_entry fields (str j) (str k)
put_item fields (obj members) = err value_error
put_item fields v = err type_error

unfoldable pub dict_of_items : Fields → Items → Result Fields
unfolding put_item
dict_of_items fields nil = ok fields
dict_of_items fields (cons v items) = do next ← put_item fields v; dict_of_items next items

-- dict(v or {})
unfoldable pub dict_of : Json → Result Fields
unfolding dict_of_items is_truthy
dict_of (obj fields) = ok fields
dict_of (arr items) = dict_of_items end items
dict_of (str (c ∷ s)) = err value_error
dict_of v = if is_truthy v then err type_error else ok end

-- d.setdefault(k, v)
unfoldable pub set_default : Fields → Str → Json → Fields
unfolding get put
set_default fields k v = elim (get fields k) [ none ↦ put fields k v | some w ↦ fields ]

unfoldable pub parse_policy_resource : Reader → Json → Result PolicyResource
unfolding dict_of set_default from_api as_object get_or subscript
parse_policy_resource rd data_member = do
  resource ← as_object data_member
  attributes ← dict_of (get_or resource (codes "attributes") null)
  raw_id ← subscript resource (codes "id")
  from_api rd (set_default attributes (codes "id") raw_id)

-- The policy that heartbeats are sized by, where its duration is the number or null of the field's
-- annotation.
unfoldable pub heartbeat_policy : PolicyResource → Option HeartbeatPolicy
heartbeat_policy policy = elim (policy.heartbeat_duration) [
  | null ↦ some (record { heartbeat_duration = none })
  | int n ↦ some (record { heartbeat_duration = some n })
  | _ ↦ none
]
