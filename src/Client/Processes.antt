-- ===== src/Client/Processes.antt =====
-- `ProcessesClient` of client.py. A `pid` may be any value of JSON.
use tamga_python.Prelude.{Option, none, some, []}
use tamga_python.Python.Int.{ℤ}
use tamga_python.Python.Str.{Str, codes}
use tamga_python.Python.Json.{Json, str, obj, Fields, field}
use tamga_python.Python.Exc.{Result, ok, err, type_error}
use tamga_python.Models.Resources.{parse_process_resource}
use tamga_python.Models.Records.{ProcessResource}
use tamga_python.Client.Request.{Context}
use tamga_python.Client.Endpoint.{Operation}
use tamga_python.Client.Session.{Session, return, lift, ◌>>=◌}
use tamga_python.Client.Pages.{Page, call, keyset_list, with_metadata}

-- if not isinstance(pid, str): raise TypeError
unfoldable pub text_pid : Json → Result Str
text_pid (str pid) = ok pid
text_pid v = err type_error

unfoldable pub process_body : Str → Str → Option Fields → Json
process_body machine_id pid metadata = obj (
    field (codes "machine_id") (str machine_id)
      (field (codes "pid") (str pid) (with_metadata metadata)))

module _ (ctx : Context) where
  unfoldable pub create : Str → Json → Option Fields → Session ProcessResource
  unfolding call text_pid process_body
  create machine_id pid metadata = do
    text ← lift (text_pid pid)
    answer ← call ctx Operation.create_process (some (process_body machine_id text metadata)) []
    lift (parse_process_resource ctx.reader answer)

  unfoldable pub ping : Str → Session ProcessResource
  unfolding call
  ping process_id = do
    answer ← call ctx (Operation.ping_process process_id) none []
    lift (parse_process_resource ctx.reader answer)

  unfoldable pub delete : Str → Session (Unit {0})
  unfolding call
  delete process_id = do answer ← call ctx (Operation.delete_process process_id) none []; return tt

  unfoldable pub list : Str → Option ℤ → Option Str → Session (Page ProcessResource)
  unfolding keyset_list
  list machine_id limit after =
      keyset_list ctx (Operation.list_processes machine_id) (parse_process_resource ctx.reader)
        (λ process. process.id) limit after
