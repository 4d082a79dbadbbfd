-- ===== src/Client/Machines.antt =====
-- `MachinesClient` of client.py: activation with its rollback, and the adoption of a machine that
-- holds the fingerprint already. A request and its parsing are one call; what the server answers
-- may depend on all calls before.
pub mod Activation
pub mod Search
pub mod Adoption
pub mod Wire
pub mod Recovery
mod Tests
use tamga_python.Prelude.{
  ◌≡◌, refl, ℕ, zero, suc, Bool, true, false, not, ◌&&◌, ◌||◌, Option, none, some, List, [], ◌∷◌,
  is_empty, if◌then◌else◌,
}
use tamga_python.Python.Int.{ℤ, ltb_ℤ}
use tamga_python.Python.Str.{Str, codes, str_eq, strip, is_space}
use tamga_python.Python.Json.{Json, null, str, arr, obj, Fields, end, get}
use tamga_python.Python.Exc.{Exc, Result, ok, err, value_error, type_error}
use tamga_python.Models.Validation.{
  ValidationCode, too_many_machines, too_many_cores, too_much_memory, too_much_disk,
  too_many_processes, code_value,
}
use tamga_python.Errors.{
  ErrorClass, fingerprint_taken, not_found, TamgaError, MachineOverLimitError,
}
use tamga_python.Transport.{Raised, exc, api, Outcome, returned, raised}

pub record Machine : Type 0 where
  pub id : Str
  pub fingerprint : Json

pub record OffsetPage : Type 0 where
  pub items : List Machine
  pub page_number : ℤ
  pub page_size : ℤ
  pub total : ℤ
  pub total_pages : ℤ

unfoldable pub has_next_page : OffsetPage → Bool
has_next_page page = ltb_ℤ page.page_number page.total_pages

-- The calls of the sub-clients that the workflows make, with their arguments.
pub data Call : Type 0 where
  create_call : Str → Str → Call
  validate_call : Str → Call
  delete_call : Str → Call
  get_call : Str → Call
  list_call : ℕ → Str → Str → Call

-- The outcome of each call after a history of calls, the latest first.
pub record Server : Type 0 where
  pub create : List Call → Str → Str → Outcome Machine
  pub validate : List Call → Str → Outcome ValidationCode
  pub delete : List Call → Str → Outcome (Unit {0})
  pub get : List Call → Str → Outcome Machine
  pub list : List Call → ℕ → Str → Str → Outcome OffsetPage

-- How a workflow ends: with a value, with what a call raised, or with a refused activation.
pub data Ended {ℓ} (A : Type ℓ) : Type ℓ where
  done : A → Ended A
  failed : Raised → Ended A
  over_limit : MachineOverLimitError → Ended A

-- A workflow's end, and the history that it leaves.
pub record Run {ℓ} (A : Type ℓ) : Type ℓ where
  pub outcome : Ended A
  pub log : List Call

abbrev pub run {ℓ} : {A : Type ℓ} → Ended A → List Call → Run A
run outcome log = record { outcome = outcome; log = log }

-- _CREATE_LIMIT_CODE_TO_VALIDATION_CODE.get(code)
unfoldable pub limit_of_text : Str → Option ValidationCode
unfolding str_eq
limit_of_text s =
    if str_eq s (codes "MACHINE_LIMIT_EXCEEDED")
    then some too_many_machines
    else if str_eq s (codes "CORE_LIMIT_EXCEEDED")
    then some too_many_cores
    else if str_eq s (codes "MEMORY_LIMIT_EXCEEDED")
    then some too_much_memory
    else if str_eq s (codes "DISK_LIMIT_EXCEEDED")
    then some too_much_disk
    else none

unfoldable pub limit_of : Json → Result (Option ValidationCode)
unfolding limit_of_text
limit_of (str s) = ok (limit_of_text s)
limit_of (arr items) = err type_error
limit_of (obj fields) = err type_error
limit_of v = ok none

-- what the handler around `create` raises
unfoldable pub limit_error : TamgaError → Result (Option ValidationCode) → Ended Machine
limit_error e (err x) = failed (exc x)
limit_error e (ok none) = failed (api e)
limit_error e (ok (some equivalent)) = over_limit (record {
  status = e.status;
  code = e.code;
  validation_code = equivalent;
  rolled_back = false;
  pointer = e.pointer;
  meta = e.meta;
})

unfoldable pub create_error : Raised → Ended Machine
unfolding limit_of limit_error
create_error (api e) = limit_error e (limit_of e.code)
create_error (exc x) = failed (exc x)

abbrev pub is_over_limit : ValidationCode → Bool
is_over_limit too_many_machines = true
is_over_limit too_many_cores = true
is_over_limit too_much_memory = true
is_over_limit too_much_disk = true
is_over_limit too_many_processes = true
is_over_limit _ = false

-- what is raised after the rollback
abbrev pub rolled_back_error : ValidationCode → Ended Machine
rolled_back_error code = over_limit (record {
  status = 200;
  code = str (code_value code);
  validation_code = code;
  rolled_back = true;
  pointer = null;
  meta = none;
})

-- machine.fingerprint == fingerprint
unfoldable pub has_fingerprint : Str → Machine → Bool
unfolding str_eq
has_fingerprint fingerprint machine = elim (machine.fingerprint) [
  | str s ↦ str_eq s fingerprint
  | _ ↦ false
]

-- the first machine of a page with that fingerprint
unfoldable pub find_exact : Str → List Machine → Option Machine
find_exact fingerprint [] = none
find_exact fingerprint (machine ∷ items) =
    let rest = find_exact fingerprint items in
    if has_fingerprint fingerprint machine then some machine else rest

-- FingerprintTakenError.existing_machine_id, where `parse_uuid` is Python's `UUID`, written back
unfoldable pub existing_machine_id : (Str → Option Str) → TamgaError → Option Str
existing_machine_id parse_uuid e = elim (e.meta) [
  | none ↦ none
  | some fields ↦ elim (get fields (codes "machineId")) [
    | some (str raw) ↦ parse_uuid raw
    | _ ↦ none
  ]
]

abbrev pub is_not_found : Raised → Bool
is_not_found (api e) = elim (e.class) [ not_found ↦ true | _ ↦ false ]
is_not_found _ = false

abbrev pub max_machine_search_pages : ℕ
max_machine_search_pages = 20

module _ (server : Server) where
  -- the handling of an over-limit verdict
  unfoldable pub roll_back : List Call → Machine → ValidationCode → Run Machine
  roll_back log machine code = elim (server.delete log machine.id) [
    | raised r ↦ run (failed r) (delete_call machine.id ∷ log)
    | returned u ↦ run (rolled_back_error code) (delete_call machine.id ∷ log)
  ]

  unfoldable pub validate_created : List Call → Str → Machine → Run Machine
  unfolding roll_back
  validate_created log license_id machine = elim (server.validate log license_id) [
    | raised r ↦ run (failed r) (validate_call license_id ∷ log)
    | returned code ↦
        if is_over_limit code
        then roll_back (validate_call license_id ∷ log) machine code
        else run (done machine) (validate_call license_id ∷ log)
  ]

  -- MachinesClient.activate_machine
  pub activate_machine : List Call → Str → Str → Run Machine
  unfolding create_error validate_created
  activate_machine log license_id fingerprint = elim (server.create log license_id fingerprint) [
    | raised r ↦ run (create_error r) (create_call license_id fingerprint ∷ log)
    | returned machine ↦
        validate_created (create_call license_id fingerprint ∷ log) license_id machine
  ]

  -- the loop over the pages, from page `number`, for at most `remaining` pages
  unfoldable pub search_pages : Str → Str → ℕ → ℕ → List Call → Run (Option Machine)
  unfolding find_exact has_next_page
  search_pages fingerprint license_id zero number log = run (done none) log
  search_pages fingerprint license_id (suc remaining) number log =
      let log' = list_call number fingerprint license_id ∷ log in
      let rest = search_pages fingerprint license_id remaining (suc number) log' in
      elim (server.list log number fingerprint license_id) [
        | raised r ↦ run (failed r) log'
        | returned page ↦ elim (find_exact fingerprint page.items) [
          | some machine ↦ run (done (some machine)) log'
          | none ↦
              if is_empty page.items || not (has_next_page page) then run (done none) log' else rest
        ]
      ]

  -- MachinesClient.find_by_fingerprint
  pub find_by_fingerprint : List Call → Str → Str → ℕ → Run (Option Machine)
  unfolding search_pages strip is_space
  find_by_fingerprint log fingerprint license_id max_pages =
      if is_empty (strip is_space fingerprint)
      then run (failed (exc value_error)) log
      else search_pages fingerprint license_id max_pages 1 log

  -- the machine that the conflict names, where it has the fingerprint
  unfoldable pub adopt_named : List Call → Str → Str → Str → Run (Option Machine)
  unfolding has_fingerprint find_by_fingerprint
  adopt_named log id license_id fingerprint =
      let log' = get_call id ∷ log in
      let search = find_by_fingerprint log' fingerprint license_id max_machine_search_pages in
      elim (server.get log id) [
        | raised r ↦ if is_not_found r then search else run (failed r) log'
        | returned machine ↦
            if has_fingerprint fingerprint machine then run (done (some machine)) log' else search
      ]

  -- MachinesClient._resolve_taken_fingerprint
  unfoldable pub resolve_taken_fingerprint :
      (Str → Option Str) → TamgaError → List Call → Str → Str → Run (Option Machine)
  unfolding existing_machine_id adopt_named find_by_fingerprint
  resolve_taken_fingerprint parse_uuid conflict log license_id fingerprint =
      elim (existing_machine_id parse_uuid conflict) [
        | none ↦ find_by_fingerprint log fingerprint license_id max_machine_search_pages
        | some id ↦ adopt_named log id license_id fingerprint
      ]

-- the conflict that is raised again; its new text is not kept
abbrev pub unresolved : TamgaError → Raised
unresolved conflict = api (record {
  class = fingerprint_taken;
  status = conflict.status;
  code = conflict.code;
  detail = null;
  pointer = conflict.pointer;
  meta = conflict.meta;
  retry_after = none;
})

unfoldable pub found_or_conflict : TamgaError → Ended (Option Machine) → List Call → Run Machine
found_or_conflict conflict (failed x) log = run (failed x) log
found_or_conflict conflict (over_limit x) log = run (over_limit x) log
found_or_conflict conflict (done none) log = run (failed (unresolved conflict)) log
found_or_conflict conflict (done (some machine)) log = run (done machine) log

-- FingerprintTakenError is caught, all else passes.
unfoldable pub as_conflict : Ended Machine → Option TamgaError
as_conflict (failed (api e)) = elim (e.class) [ fingerprint_taken ↦ some e | _ ↦ none ]
as_conflict _ = none

-- MachinesClient.activate_machine_idempotent
pub activate_machine_idempotent : (Str → Option Str) → Server → List Call → Str → Str → Run Machine
unfolding activate_machine as_conflict resolve_taken_fingerprint found_or_conflict
activate_machine_idempotent parse_uuid server log license_id fingerprint =
    let first = activate_machine server log license_id fingerprint in
    elim (as_conflict first.outcome) [
      | none ↦ first
      | some conflict ↦
          let found =
            resolve_taken_fingerprint server parse_uuid conflict first.log license_id fingerprint in
          found_or_conflict conflict found.outcome found.log
    ]
