-- ===== src/Client/Machines/Wire.antt =====
-- The workflows of `MachinesClient` on the requests that their calls send: what the server answers
-- to a call is read off the requests that the calls before it sent.
use tamga_python.Prelude.{◌≡◌, refl, ap, ◌⊎◌, inl, inr, ℕ, false, none, some, List, [], ◌∷◌, map}
use tamga_python.Python.Int.{pos}
use tamga_python.Python.Str.{Str}
use tamga_python.Python.Exc.{Result, ok, err}
use tamga_python.Transport.{Dict, Raised, Outcome, returned, raised}
use tamga_python.Models.Validation.{ValidationCode}
use tamga_python.Models.Records.{MachineReading}
use tamga_python.Client.Request.{HttpRequest, Log, Context, license_headers}
use tamga_python.Client.Session.{Session, lift, proceed, client_answer}
use tamga_python.Client.Licenses.Validation.{validation_result-Quiet}
use tamga_python.Client.Session.Sending.{Repeats, proceed-quiet, client_answer-Repeats}
use tamga_python.Client.Endpoint.{Operation, endpoint}
use tamga_python.Client.Pages.{max_page_size}
use tamga_python.Client.Licenses
use tamga_python.Client.Licenses.{
  ValidationResult, validation_result, license_request, validation_body, scope_member,
}
use tamga_python.Client.MachineCalls
use tamga_python.Client.MachineBodies.{MachineAttributes, MachinePage, create_body}
use tamga_python.Client.Changes.{SentOnce, create-SentOnce, delete-SentOnce}
use tamga_python.Client.Machines.{
  Machine, OffsetPage, Call, create_call, validate_call, delete_call, get_call, list_call, Server,
  Ended, done, failed, Run, activate_machine, create_error, rolled_back_error,
}
use tamga_python.Client.Machines.Activation.{
  Activation, refused, activated, unvalidated, rolled_back, not_rolled_back,
  activate_machine-Activation,
}

abbrev machine_of : MachineReading → Machine
machine_of reading = record { id = reading.id; fingerprint = reading.fingerprint }

abbrev page_of : MachinePage → OffsetPage
page_of page = record {
  items = map machine_of page.items;
  page_number = page.page_number;
  page_size = page.page_size;
  total = page.total;
  total_pages = page.total_pages;
}

abbrev map_outcome {ℓ κ} : {A : Type ℓ} {B : Type κ} → (A → B) → Outcome A → Outcome B
map_outcome f (returned a) = returned (f a)
map_outcome f (raised r) = raised r

module _ (ctx : Context) (attrs : MachineAttributes) (start : Log) where
  abbrev list_of : ℕ → Str → Str → Session MachinePage
  list_of number fingerprint license_id =
      MachineCalls.list ctx (pos number) (some max_page_size) (some fingerprint) (some license_id)
        none

  -- The requests after a call, and after a history of calls.
  abbrev pub perform : Call → Log → Log
  perform (create_call license_id fingerprint) log =
      (MachineCalls.create ctx license_id fingerprint attrs log).1
  perform (validate_call license_id) log = (Licenses.validate_by_id ctx license_id none false log).1
  perform (delete_call machine_id) log = (MachineCalls.delete ctx machine_id log).1
  perform (get_call machine_id) log = (MachineCalls.get ctx machine_id log).1
  perform (list_call number fingerprint license_id) log =
      (list_of number fingerprint license_id log).1

  abbrev pub requests : List Call → Log
  requests [] = start
  requests (call ∷ calls) = perform call (requests calls)

  abbrev pub wire : Server
  wire = record {
    create = λ calls license_id fingerprint.
        map_outcome machine_of
          (MachineCalls.create ctx license_id fingerprint attrs (requests calls)).0;
    validate = λ calls license_id.
        map_outcome (λ (result : ValidationResult). result.meta.code)
          (Licenses.validate_by_id ctx license_id none false (requests calls)).0;
    delete = λ calls machine_id. (MachineCalls.delete ctx machine_id (requests calls)).0;
    get = λ calls machine_id.
        map_outcome machine_of (MachineCalls.get ctx machine_id (requests calls)).0;
    list = λ calls number fingerprint license_id.
        map_outcome page_of (list_of number fingerprint license_id (requests calls)).0;
  }

  -- Nothing was sent, or a validation of the license by its id, and again after answers of 429.
  abbrev pub Validated : Str → Log → Log → Type 0
  Validated license_id log log' =
      (log' ≡ log)
      ⊎ ((request : HttpRequest) × (request.method
            ≡ (endpoint (Operation.validate_by_id license_id)).method)
          × (request.target ≡ (endpoint (Operation.validate_by_id license_id)).path)
          × (request.body ≡ none)
          × Repeats ctx request log log')

  headed :
      (license_id : Str) (headers : Result Dict) (log : Log)
      → Validated license_id log
          (proceed (lift headers log) (λ (h : Dict). client_answer ctx (record {
            method = (endpoint (Operation.validate_by_id license_id)).method;
            target = (endpoint (Operation.validate_by_id license_id)).path;
            headers = h;
            params = [];
            body = none;
          }))).1
  headed license_id (ok h) log = inr (_, refl, refl, refl, client_answer-Repeats ctx _ log)
  headed license_id (err x) log = inl refl

  validate_by_id-Validated :
      (license_id : Str) (log : Log)
      → Validated license_id log (Licenses.validate_by_id ctx license_id none false log).1
  unfolding Licenses.validate_by_id license_request validation_body scope_member
  validate_by_id-Validated license_id log =
      rw
        (proceed-quiet ctx (license_request ctx (Operation.validate_by_id license_id) none none log)
          (λ (license_data, meta). validation_result ctx license_data meta)
          (λ (license_data, meta) l. validation_result-Quiet ctx license_data meta l))
        (headed license_id (license_headers ctx none) log)

  module _ (license_id fingerprint : Str) where
    abbrev creation : Outcome MachineReading
    creation = (MachineCalls.create ctx license_id fingerprint attrs start).0

    abbrev created_log : Log
    created_log = perform (create_call license_id fingerprint) start

    abbrev validated_log : Log
    validated_log = perform (validate_call license_id) created_log

    -- How an activation ends: the creation is refused, or its machine is kept, or deleted.
    abbrev pub Ending : Ended Machine → Log → Type 0
    Ending outcome log =
        ((x : Raised) × (creation ≡ raised x) × (outcome ≡ create_error x) × (log ≡ created_log))
        ⊎ ((reading : MachineReading) × (creation ≡ returned reading)
            × (log ≡ validated_log)
            × ((outcome ≡ done (machine_of reading)) ⊎ ((x : Raised) × (outcome ≡ failed x))))
        ⊎ ((reading : MachineReading) × (creation ≡ returned reading)
            × SentOnce ctx (Operation.delete_machine reading.id) none validated_log log
            × (((code : ValidationCode) × (outcome ≡ rolled_back_error code))
                ⊎ ((x : Raised) × (outcome ≡ failed x))))

    pub record Wired (r : Run Machine) : Type 0 where
      pub creation_sent :
          SentOnce ctx Operation.create_machine
            (some (create_body license_id fingerprint attrs))
            start
            created_log
      pub validation_sent : Validated license_id created_log validated_log
      pub ending : Ending r.outcome (requests r.log)

    created_of :
        (o : Outcome MachineReading) (machine : Machine)
        → map_outcome machine_of o ≡ returned machine
        → (reading : MachineReading) × (o ≡ returned reading) × (machine ≡ machine_of reading)
    created_of (returned reading) machine h = (reading, refl, cc h)
    created_of (raised x) machine h = absurd (cc h)

    refused_of :
        (o : Outcome MachineReading) (x : Raised)
        → map_outcome machine_of o ≡ raised x
        → o ≡ raised x
    refused_of (returned reading) x h = absurd (cc h)
    refused_of (raised y) x h = cc h

    deleted :
        (machine : Machine) (reading : MachineReading) (outcome : Ended Machine)
        → machine ≡ machine_of reading
        → creation ≡ returned reading
        → ((code : ValidationCode) × (outcome ≡ rolled_back_error code))
          ⊎ ((x : Raised) × (outcome ≡ failed x))
        → Ending outcome (perform (delete_call machine.id) validated_log)
    deleted machine reading outcome same e ended =
        rw same (inr (inr (reading, e, delete-SentOnce ctx reading.id validated_log, ended)))

    Activation-Ending :
        (r : Run Machine)
        → Activation wire [] license_id fingerprint r
        → Ending r.outcome (requests r.log)
    Activation-Ending _ (refused x e) = inl (x, refused_of creation x e, refl, refl)
    Activation-Ending _ (activated machine code e f g) =
        let (reading, c, same) = created_of creation machine e in
        inr (inl (reading, c, refl, inl (ap done same)))
    Activation-Ending _ (unvalidated machine x e f) =
        let (reading, c, same) = created_of creation machine e in
        inr (inl (reading, c, refl, inr (x, refl)))
    Activation-Ending _ (rolled_back machine code u e f g d) =
        let (reading, c, same) = created_of creation machine e in
        deleted machine reading _ same c (inl (code, refl))
    Activation-Ending _ (not_rolled_back machine code x e f g d) =
        let (reading, c, same) = created_of creation machine e in
        deleted machine reading _ same c (inr (x, refl))

    -- An activation sends the creation at most once, then the validation of the license, which alone
    -- is repeated after answers of 429, and then at most one deletion, of the machine that the
    -- creation returned. A deletion is sent only where the creation succeeded, and the activation
    -- then ends in an over-limit error or in another error. A machine that is returned is the one
    -- created, with no deletion sent.
    pub activate_machine-Wired : Wired (activate_machine wire [] license_id fingerprint)
    activate_machine-Wired = record {
      creation_sent = create-SentOnce ctx license_id fingerprint attrs start;
      validation_sent = validate_by_id-Validated license_id created_log;
      ending =
          Activation-Ending (activate_machine wire [] license_id fingerprint)
            (activate_machine-Activation wire [] license_id fingerprint);
    }
