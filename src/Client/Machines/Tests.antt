-- ===== src/Client/Machines/Tests.antt =====
-- Activations against a small server.
use tamga_python.Prelude.{◌≡◌, refl, true, false, none, some, [], ◌∷◌, is_empty, if◌then◌else◌}
use tamga_python.Python.Int.{pos}
use tamga_python.Python.Str.{codes, str_eq, strip, is_space}
use tamga_python.Python.Json.{null, str}
use tamga_python.Models.Validation.{too_many_machines}
use tamga_python.Errors.{fingerprint_taken, TamgaError, MachineOverLimitError, parse_error_envelope}
use tamga_python.Transport.{bearer, Outcome, returned, raised, api}
use tamga_python.Client.Machines.{
  Machine, OffsetPage, create_call, validate_call, delete_call, list_call, Server, done, over_limit,
  run, Run, activate_machine, rolled_back_error, as_conflict, activate_machine_idempotent,
  find_exact, has_fingerprint,
}
use tamga_python.Client.Machines.Activation.{Explained, activate_machine-Explained}
use tamga_python.Client.Machines.Search.{Leads, here}
use tamga_python.Client.Request.{Context}
use tamga_python.Models.Resources.{parse_machine_resource}
use tamga_python.Models.Meta.{parse_validation_meta}
use tamga_python.Models.License.{license_from_data}
use tamga_python.Client.Licenses.{validate_by_id}
use tamga_python.Client.MachineCalls.{create, delete}
use tamga_python.Client.Samples.{client_of, answer_with, bare_machine}
use tamga_python.Client.Machines.Recovery.{Reads, activate_machine_idempotent-Reads}
use tamga_python.Client.Machines.Wire.{wire, requests, Wired, activate_machine-Wired}
use tamga_python.Client.Machines.Adoption.{Recovered, activate_machine_idempotent-Recovered}

abbrev sample_machine : Machine
sample_machine = record { id = codes "1"; fingerprint = str (codes "f") }

abbrev sample_page : OffsetPage
sample_page = record {
  items = sample_machine ∷ [];
  page_number = pos 1;
  page_size = pos 100;
  total = pos 1;
  total_pages = pos 1;
}

abbrev taken : TamgaError
taken = record {
  class = fingerprint_taken;
  status = 409;
  code = str (codes "FINGERPRINT_TAKEN");
  detail = null;
  pointer = null;
  meta = none;
  retry_after = none;
}

abbrev server_with : Outcome Machine → Server
server_with created = record {
  create = λ log license fingerprint. created;
  validate = λ log license. returned too_many_machines;
  delete = λ log id. returned tt;
  get = λ log id. returned sample_machine;
  list = λ log number search license. returned sample_page;
}

-- Creation succeeds, and validation says that there are too many machines.
abbrev crowded : Server
crowded = server_with (returned sample_machine)

-- The fingerprint is taken.
abbrev occupied : Server
occupied = server_with (raised (api taken))

abbrev refusal : MachineOverLimitError
refusal = record {
  status = 200;
  code = str (codes "TOO_MANY_MACHINES");
  validation_code = too_many_machines;
  rolled_back = true;
  pointer = null;
  meta = none;
}

rolls_back :
    activate_machine crowded [] (codes "l") (codes "f")
    ≡ run (over_limit refusal) (
        delete_call (codes "1")
        ∷ validate_call (codes "l")
        ∷ create_call (codes "l") (codes "f")
        ∷ [])
unfolding activate_machine
rolls_back = refl

refuses : (activate_machine crowded [] (codes "l") (codes "f")).outcome ≡ over_limit refusal
unfolding activate_machine
refuses = refl

conflicts : as_conflict (activate_machine occupied [] (codes "l") (codes "f")).outcome ≡ some taken
unfolding as_conflict activate_machine
conflicts = refl

adopts :
    activate_machine_idempotent (λ raw. none) occupied [] (codes "l") (codes "f")
    ≡ run
        (done sample_machine)
        (list_call 1 (codes "f") (codes "l") ∷ create_call (codes "l") (codes "f") ∷ [])
unfolding activate_machine_idempotent
adopts = refl

activate_machine-Explained_example :
    Explained crowded []
      (codes "l")
      (codes "f")
      refusal
      (activate_machine crowded [] (codes "l") (codes "f")).log
activate_machine-Explained_example =
    activate_machine-Explained crowded [] (codes "l") (codes "f") refusal refuses

first_page : Leads occupied (codes "f") (codes "l") sample_machine 20 1 []
unfolding find_exact has_fingerprint
first_page = here sample_page refl refl

not_blank : is_empty (strip is_space (codes "f")) ≡ false
unfolding strip is_space
not_blank = refl

activate_machine_idempotent-Recovered_example :
    Recovered occupied
      (codes "f")
      (codes "l")
      taken
      (activate_machine occupied [] (codes "l") (codes "f")).log
      (activate_machine_idempotent (λ raw. none) occupied [] (codes "l") (codes "f"))
activate_machine_idempotent-Recovered_example =
    activate_machine_idempotent-Recovered (λ raw. none) occupied [] (codes "l") (codes "f") taken
      conflicts

-- A server that creates the machine "r", finds too many machines, and answers to its deletion.
abbrev crowded_client : Context
crowded_client = client_of (some (bearer (codes "t"))) (λ request.
    if str_eq request.target (codes "/machines")
    then answer_with (5 ∷ [])
    else if str_eq request.method (codes "POST")
    then answer_with (6 ∷ [])
    else answer_with [])

abbrev crowded_run : Run Machine
crowded_run = activate_machine (wire crowded_client bare_machine []) [] (codes "l") (codes "f")

activate_machine-Wired_example :
    Wired crowded_client bare_machine [] (codes "l") (codes "f") crowded_run
activate_machine-Wired_example =
    activate_machine-Wired crowded_client bare_machine [] (codes "l") (codes "f")

rolls_back_on_wire : crowded_run.outcome ≡ rolled_back_error too_many_machines
unfolding activate_machine create parse_machine_resource validate_by_id parse_validation_meta delete
    license_from_data
rolls_back_on_wire = refl

-- A server that holds the fingerprint already and lists no machine.
abbrev taken_client : Context
taken_client = client_of (some (bearer (codes "t"))) (λ request.
    if str_eq request.method (codes "POST")
    then record (answer_with (7 ∷ [])) { status_code = 409 }
    else answer_with (4 ∷ []))

conflicts_on_wire :
    as_conflict
      (activate_machine (wire taken_client bare_machine []) [] (codes "l") (codes "f")).outcome
    ≡ some (record taken { detail = str [] })
unfolding as_conflict activate_machine create parse_error_envelope
conflicts_on_wire = refl

activate_machine_idempotent-Reads_example :
    Reads taken_client 63
      (requests taken_client bare_machine []
        (activate_machine (wire taken_client bare_machine []) [] (codes "l") (codes "f")).log)
      (requests taken_client bare_machine []
        (activate_machine_idempotent
          (λ raw. none)
          (wire taken_client bare_machine [])
          []
          (codes "l")
          (codes "f")).log)
activate_machine_idempotent-Reads_example =
    activate_machine_idempotent-Reads taken_client bare_machine [] (λ raw. none) (codes "l")
      (codes "f") (record taken { detail = str [] }) conflicts_on_wire
