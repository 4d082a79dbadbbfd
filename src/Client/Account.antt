-- ===== src/Client/Account.antt =====
-- `AccountsClient`, `PoliciesClient` and `ReleasesClient` of client.py.
pub mod Keys
mod Tests
use tamga_python.Prelude.{◌≡◌, refl, Option, none, some, List, [], ◌∷◌}
use tamga_python.Python.Str.{Str, codes}
use tamga_python.Python.Json.{Json, null}
use tamga_python.Transport.{Dict}
use tamga_python.Models.SigningKey.{SigningKey}
use tamga_python.Models.Policy.Parsing.{PolicyResource, parse_policy_resource}
use tamga_python.Models.Resources.{parse_signing_key_resource, parse_release_resource}
use tamga_python.Models.Records.{ReleaseResource}
use tamga_python.Checkout.KeySet.{SigningKeySet}
use tamga_python.Client.Request.{Context}
use tamga_python.Client.Endpoint.{Operation}
use tamga_python.Client.Session.{Session, return, lift, ◌>>=◌}
use tamga_python.Client.Pages.{call, call_items, with_param}

-- the parameters of the upgrade check
unfoldable pub upgrade_params : Str → Str → Str → Str → Option Str → Option Str → Dict
upgrade_params product_id platform filetype version channel constraint =
    (codes "product", product_id)
    ∷ (codes "platform", platform)
    ∷ (codes "filetype", filetype)
    ∷ (codes "version", version)
    ∷ with_param (codes "channel") channel (with_param (codes "constraint") constraint [])

module _ (ctx : Context) where
  unfoldable pub list_signing_keys : Session (List SigningKey)
  unfolding call_items
  list_signing_keys =
      call_items ctx Operation.list_signing_keys (parse_signing_key_resource ctx.reader) []

  unfoldable pub signing_key_set : Session SigningKeySet
  unfolding list_signing_keys
  signing_key_set = do keys ← list_signing_keys; return (record { keys = keys })

  -- `PoliciesClient.get`
  unfoldable pub get_policy : Str → Session PolicyResource
  unfolding call
  get_policy policy_id = do
    answer ← call ctx (Operation.get_policy policy_id) none []
    lift (parse_policy_resource ctx.reader answer)

  -- an answer with no content is None
  unfoldable pub release_or_none : Json → Session (Option ReleaseResource)
  release_or_none null = return none
  release_or_none answer = do
    release ← lift (parse_release_resource ctx.reader answer)
    return (some release)

  unfoldable pub check_for_upgrade :
      Str → Str → Str → Str → Option Str → Option Str → Session (Option ReleaseResource)
  unfolding call upgrade_params release_or_none
  check_for_upgrade product_id platform filetype version channel constraint = do
    answer ←
        call ctx Operation.check_for_upgrade none
          (upgrade_params product_id platform filetype version channel constraint)
    release_or_none answer
