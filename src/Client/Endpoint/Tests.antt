-- ===== src/Client/Endpoint/Tests.antt =====
-- Which operations are repeated.
use tamga_python.Prelude.{◌≡◌, true}
use tamga_python.Python.Str.{codes}
use tamga_python.Client.Retry.{is_retryable}
use tamga_python.Client.Endpoint.{Operation, endpoint}
use tamga_python.Client.Endpoint.Repetition.{is_retryable-effect}

is_retryable-effect_example :
    is_retryable
      (endpoint (Operation.ping_process (codes "p"))).method
      (endpoint (Operation.ping_process (codes "p"))).path
    ≡ true
is_retryable-effect_example = is_retryable-effect (Operation.ping_process (codes "p"))
