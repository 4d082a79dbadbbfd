-- ===== src/Models/License.antt =====
-- `LicenseResource` of models/license.py, and `_license_from_data` of client.py.
use tamga_python.Prelude.{Option, none, some, List}
use tamga_python.Python.Str.{Str, codes}
use tamga_python.Python.Json.{Json, str, obj, end, get_or}
use tamga_python.Python.Exc.{Result, ok, ◌>>=◌}
use tamga_python.Errors.{as_object}
use tamga_python.Models.Reader.{Reader, id_of}
use tamga_python.Models.Records.{Entitlement}

pub record LicenseResource : Type 0 where
  pub id : Str
  pub type : Json
  pub attributes : Json
  pub relationships : Json
  -- the license whose entitlements the fetcher lists, and what it listed last
  pub entitlements_fetcher : Option Str
  pub entitlements_cache : Option (List Entitlement)

-- `LicensesClient._license_from_data` with `_parse_license_resource`, of a client that has the
-- entitlements: `TamgaClient` builds no other
unfoldable pub license_from_data : Reader → Json → Result LicenseResource
unfolding id_of as_object get_or
license_from_data rd data_member = do
  id ← id_of rd data_member
  resource ← as_object data_member
  ok (record {
    id = id;
    type = get_or resource (codes "type") (str (codes "licenses"));
    attributes = get_or resource (codes "attributes") (obj end);
    relationships = get_or resource (codes "relationships") (obj end);
    entitlements_fetcher = some id;
    entitlements_cache = none;
  })
