-- ===== src/Client/Entitlements.antt =====
-- `EntitlementsClient` of client.py.
use tamga_python.Prelude.{Option, none, some, List, [], ◌∷◌}
use tamga_python.Python.Int.{ℤ}
use tamga_python.Python.Str.{Str, codes}
use tamga_python.Python.Json.{Json, int, obj, end, field}
use tamga_python.Python.Dumps.{int_text}
use tamga_python.Models.Resources.{parse_entitlement}
use tamga_python.Models.Records.{Entitlement}
use tamga_python.Client.Request.{Context}
use tamga_python.Client.Endpoint.{Operation}
use tamga_python.Client.Session.{Session, return, lift, ◌>>=◌}
use tamga_python.Client.Pages.{Page, max_page_size, effective_limit, call, call_items}

-- {key: amount} if amount is not None else None
abbrev pub amount_body : Str → Option ℤ → Option Json
amount_body key none = none
amount_body key (some amount) = some (obj (field key (int amount) end))

module _ (ctx : Context) where
  -- the argument `after` is not used
  unfoldable pub list : Str → Option ℤ → Option Str → Session (Page Entitlement)
  unfolding call_items int_text
  list license_id limit after = do
    items ←
        call_items ctx (Operation.list_entitlements license_id) (parse_entitlement ctx.reader)
          ((codes "limit", int_text (effective_limit limit)) ∷ [])
    return (record { items = items; next_after = none })

  unfoldable pub get : Str → Str → Session Entitlement
  unfolding call
  get license_id entitlement_id = do
    answer ← call ctx (Operation.get_entitlement license_id entitlement_id) none []
    lift (parse_entitlement ctx.reader answer)

  unfoldable pub list_all : Str → Session (List Entitlement)
  unfolding list
  list_all license_id = do page ← list license_id (some max_page_size) none; return page.items

  unfoldable pub increment_entitlement_usage : Str → Str → Option ℤ → Session Entitlement
  unfolding call
  increment_entitlement_usage license_id entitlement_id increment = do
    answer ←
        call ctx (Operation.increment_usage license_id entitlement_id)
          (amount_body (codes "increment") increment) []
    lift (parse_entitlement ctx.reader answer)

  unfoldable pub decrement_entitlement_usage : Str → Str → Option ℤ → Session Entitlement
  unfolding call
  decrement_entitlement_usage license_id entitlement_id decrement = do
    answer ←
        call ctx (Operation.decrement_usage license_id entitlement_id)
          (amount_body (codes "decrement") decrement) []
    lift (parse_entitlement ctx.reader answer)

  unfoldable pub reset_entitlement_usage : Str → Str → Session Entitlement
  unfolding call
  reset_entitlement_usage license_id entitlement_id = do
    answer ← call ctx (Operation.reset_usage license_id entitlement_id) none []
    lift (parse_entitlement ctx.reader answer)
