-- ===== src/Client/Licenses/Tests.antt =====
-- A scope, and a license that is asked for an entitlement.
use tamga_python.Prelude.{◌≡◌, refl, false, none, some, [], ◌∷◌}
use tamga_python.Python.Str.{codes}
use tamga_python.Python.Json.{str, obj, end}
use tamga_python.Transport.{returned, bearer}
use tamga_python.Models.License.{LicenseResource}
use tamga_python.Client.Request.{Context}
use tamga_python.Client.Entitlements.{list_all}
use tamga_python.Client.Licenses.{LicenseScope, scope_to_dict, has_entitlement}
use tamga_python.Client.Licenses.Scope.{Sent, scope_to_dict-Sent}
use tamga_python.Client.Licenses.Cache.{Cached, has_entitlement-Cached}
use tamga_python.Client.Samples.{client_of, answer_with}

abbrev sample_scope : LicenseScope
sample_scope = record {
  product = some (codes "p");
  policy = none;
  user = none;
  environment = none;
  entitlements = some (codes "e" ∷ []);
  fingerprint = none;
  version = some (codes "1");
  checksum = none;
}

scope_to_dict-Sent_example : Sent sample_scope (scope_to_dict sample_scope)
scope_to_dict-Sent_example = scope_to_dict-Sent sample_scope

-- A server that lists no entitlements.
abbrev bare_client : Context
bare_client = client_of (some (bearer (codes "t"))) (λ request. answer_with (4 ∷ []))

abbrev asked : LicenseResource
asked = record {
  id = codes "l";
  type = str (codes "licenses");
  attributes = obj end;
  relationships = obj end;
  entitlements_fetcher = some (codes "l");
  entitlements_cache = none;
}

abbrev answered : LicenseResource
answered = record asked { entitlements_cache = some [] }

asks : (has_entitlement bare_client asked (codes "e") []).0 ≡ returned (answered, false)
unfolding has_entitlement list_all
asks = refl

has_entitlement-Cached_example : Cached bare_client asked answered (codes "e") false
has_entitlement-Cached_example =
    has_entitlement-Cached bare_client asked answered (codes "e") false [] asks
