-- ===== src/Client/Components.antt =====
-- `ComponentsClient` of client.py.
use tamga_python.Prelude.{Option, some, []}
use tamga_python.Python.Int.{ℤ}
use tamga_python.Python.Str.{Str, codes}
use tamga_python.Python.Json.{Json, str, obj, Fields, field}
use tamga_python.Models.Resources.{parse_component_resource}
use tamga_python.Models.Records.{ComponentResource}
use tamga_python.Client.Request.{Context}
use tamga_python.Client.Endpoint.{Operation}
use tamga_python.Client.Session.{Session, lift, ◌>>=◌}
use tamga_python.Client.Pages.{Page, call, keyset_list, with_metadata}

unfoldable pub component_body : Str → Str → Str → Option Fields → Json
component_body machine_id fingerprint name metadata = obj (
    field (codes "machine_id") (str machine_id) (
      field (codes "fingerprint") (str fingerprint)
        (field (codes "name") (str name) (with_metadata metadata))))

module _ (ctx : Context) where
  unfoldable pub create : Str → Str → Str → Option Fields → Session ComponentResource
  unfolding call component_body
  create machine_id fingerprint name metadata = do
    answer ←
        call ctx Operation.create_component
          (some (component_body machine_id fingerprint name metadata)) []
    lift (parse_component_resource ctx.reader answer)

  unfoldable pub list : Str → Option ℤ → Option Str → Session (Page ComponentResource)
  unfolding keyset_list
  list machine_id limit after =
      keyset_list ctx (Operation.list_components machine_id) (parse_component_resource ctx.reader)
        (λ component. component.id) limit after
