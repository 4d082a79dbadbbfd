-- ===== src/Client/MachineCalls/Tests.antt =====
-- Check-outs of a machine.
use tamga_python.Prelude.{◌≡◌, ◌⊎◌, true, some, []}
use tamga_python.Python.Int.{pos}
use tamga_python.Python.Str.{codes}
use tamga_python.Transport.{raised, api}
use tamga_python.Client.MachineCalls.{check_out, ttl_invalid_error}
use tamga_python.Client.MachineCalls.Ttl.{InRange, OutOfRange, Asked, check_out-Bounded}
use tamga_python.Client.Samples.{component_client}

check_out-Bounded_example :
    (OutOfRange (some (pos 31536000))
      × (check_out component_client (codes "m") true (some (pos 31536000)) true []
          ≡ (raised (api ttl_invalid_error), [])))
    ⊎ (InRange (some (pos 31536000))
        × Asked component_client
            (codes "m")
            true
            (some (pos 31536000))
            true
            []
            (check_out component_client (codes "m") true (some (pos 31536000)) true []).1)
check_out-Bounded_example =
    check_out-Bounded component_client (codes "m") true (some (pos 31536000)) true []
