-- ===== src/Client/Session/Tests.antt =====
-- The requests of a call.
use tamga_python.Prelude.{false, none, []}
use tamga_python.Python.Str.{codes}
use tamga_python.Client.Session.{send_request}
use tamga_python.Client.Session.Exchange.{Exchanged, send_request-Exchanged}
use tamga_python.Client.Samples.{component_client}

send_request-Exchanged_example :
    Exchanged component_client
      (codes "GET")
      (codes "/licenses/1")
      none
      []
      false
      []
      (send_request component_client (codes "GET") (codes "/licenses/1") none [] false [])
send_request-Exchanged_example =
    send_request-Exchanged component_client (codes "GET") (codes "/licenses/1") none [] false []
