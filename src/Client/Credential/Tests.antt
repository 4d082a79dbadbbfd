-- ===== src/Client/Credential/Tests.antt =====
-- Requests of a client whose credential is a query parameter.
use tamga_python.Prelude.{refl, Bool, true, Option, some, [], ◌∷◌}
use tamga_python.Python.Int.{ℤ}
use tamga_python.Python.Str.{codes}
use tamga_python.Python.Json.{Fields}
use tamga_python.Transport.{query_param}
use tamga_python.Client.Request.{Context}
use tamga_python.Client.Endpoint.{Operation}
use tamga_python.Client.Licenses.{LicenseScope, check_out_params, validate_by_key, validate_by_id}
use tamga_python.Client.Licenses
use tamga_python.Client.MachineCalls.{generate_offline_proof}
use tamga_python.Client.Credential.{Unauthenticated, query_param-dropped}
use tamga_python.Client.Samples.{client_of, answer_with}

abbrev by_query : Context
by_query =
    client_of (some (query_param (codes "v") (codes "token"))) (λ request. answer_with (4 ∷ []))

query_param-dropped_example :
    Unauthenticated by_query Operation.validate_by_key [] []
      (validate_by_key by_query (codes "k") []).1
    × ((scope : Option LicenseScope) (skip_touch : Bool)
        → Unauthenticated by_query
            (Operation.validate_by_id (codes "k"))
            []
            []
            (validate_by_id by_query (codes "k") scope skip_touch []).1)
    × ((encrypt : Bool) (ttl : Option ℤ)
        → Unauthenticated by_query
            (Operation.check_out_license_bytes (codes "k"))
            (check_out_params encrypt ttl)
            []
            (Licenses.check_out by_query (codes "k") encrypt ttl true []).1)
    × ((dataset : Option Fields)
        → Unauthenticated by_query
            (Operation.generate_offline_proof (codes "k"))
            []
            []
            (generate_offline_proof by_query (codes "k") dataset []).1)
query_param-dropped_example =
    query_param-dropped by_query (codes "v") (codes "token") refl (codes "k") []
