-- ===== src/Client/Changes/Tests.antt =====
-- Changes at a server.
use tamga_python.Prelude.{none, some, []}
use tamga_python.Python.Str.{codes}
use tamga_python.Python.Json.{str}
use tamga_python.Client.Endpoint.{Operation}
use tamga_python.Client.MachineCalls
use tamga_python.Client.MachineBodies.{create_body, update_body}
use tamga_python.Client.Components
use tamga_python.Client.Components.{component_body}
use tamga_python.Client.Processes
use tamga_python.Client.Processes.{process_body}
use tamga_python.Client.Entitlements
use tamga_python.Client.Entitlements.{amount_body}
use tamga_python.Client.Changes.{SentOnce, changes-SentOnce}
use tamga_python.Client.Samples.{component_client, bare_machine}

changes-SentOnce_example :
    SentOnce component_client Operation.create_machine
      (some (create_body (codes "l") (codes "f") bare_machine))
      []
      (MachineCalls.create component_client (codes "l") (codes "f") bare_machine []).1
    × SentOnce component_client
        (Operation.update_machine (codes "i"))
        (some (update_body bare_machine))
        []
        (MachineCalls.update component_client (codes "i") bare_machine []).1
    × SentOnce component_client
        (Operation.delete_machine (codes "i"))
        none
        []
        (MachineCalls.delete component_client (codes "i") []).1
    × SentOnce component_client Operation.create_component
        (some (component_body (codes "i") (codes "f") (codes "n") none))
        []
        (Components.create component_client (codes "i") (codes "f") (codes "n") none []).1
    × SentOnce component_client Operation.create_process
        (some (process_body (codes "i") (codes "n") none))
        []
        (Processes.create component_client (codes "i") (str (codes "n")) none []).1
    × SentOnce component_client
        (Operation.delete_process (codes "i"))
        none
        []
        (Processes.delete component_client (codes "i") []).1
    × SentOnce component_client
        (Operation.increment_usage (codes "l") (codes "i"))
        (amount_body (codes "increment") none)
        []
        (Entitlements.increment_entitlement_usage component_client
          (codes "l")
          (codes "i")
          none
          []).1
    × SentOnce component_client
        (Operation.decrement_usage (codes "l") (codes "i"))
        (amount_body (codes "decrement") none)
        []
        (Entitlements.decrement_entitlement_usage component_client
          (codes "l")
          (codes "i")
          none
          []).1
    × SentOnce component_client
        (Operation.reset_usage (codes "l") (codes "i"))
        none
        []
        (Entitlements.reset_entitlement_usage component_client (codes "l") (codes "i") []).1
changes-SentOnce_example =
    changes-SentOnce component_client (codes "l") (codes "i") (codes "f") (codes "n") bare_machine
      none none []
