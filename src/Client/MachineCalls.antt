-- ===== src/Client/MachineCalls.antt =====
-- The calls of `MachinesClient` of client.py, below the workflows of Machines.
pub mod Ttl
mod Tests
use tamga_python.Prelude.{
  ◌≡◌, refl, Bool, true, false, not, ◌&&◌, Option, none, some, List, [], ◌∷◌, ◌++◌, if◌then◌else◌,
  ◌⊎◌, inl, inr,
}
use tamga_python.Python.Int.{ℤ, pos, ltb_ℤ, leb_ℤ}
use tamga_python.Python.Str.{Str, Bytes, codes}
use tamga_python.Python.Json.{Json, null, bool, int, str, obj, Fields, end, field, get_or}
use tamga_python.Python.Dumps.{int_text}
use tamga_python.Python.Exc.{Result, ok, err, or_value_error, attribute_error}
use tamga_python.Errors.{TamgaError, ttl_invalid}
use tamga_python.Transport.{Dict, api}
use tamga_python.Models.Meta.{parse_page_meta}
use tamga_python.Models.Resources.{parse_machine_resource, parse_file_resource}
use tamga_python.Models.Records.{MachineReading, FileResource}
use tamga_python.Models.Reader.{parse_each}
use tamga_python.Proof.{ProofResult}
use tamga_python.Proof
use tamga_python.Client.Request.{HttpRequest, Context, octet_headers, json_headers}
use tamga_python.Client.Endpoint.{Operation, endpoint}
use tamga_python.Client.Session.{
  Session, return, raise, lift, ◌>>=◌, ◌>>◌, send, send_request, send_request_with_meta,
  client_request, client_answer, content_of,
}
use tamga_python.Client.Pages.{effective_limit, with_param, call}
use tamga_python.Client.Licenses.{check_out_params, check_out_body}
use tamga_python.Client.MachineBodies.{
  MachineAttributes, MachinePage, create_body, given_attributes, int_json, license_relationship,
  list_params, obj_json, text_json, update_body, with_member,
}

abbrev pub max_checkout_ttl_seconds : ℤ
max_checkout_ttl_seconds = pos 31536000

-- ttl is None or 0 < ttl <= MAX_CHECKOUT_TTL_SECONDS
unfoldable pub ttl_fits : Option ℤ → Bool
ttl_fits none = true
ttl_fits (some ttl) = ltb_ℤ (pos 0) ttl && leb_ℤ ttl max_checkout_ttl_seconds

-- TtlInvalidError, without its text
abbrev pub ttl_invalid_error : TamgaError
ttl_invalid_error = record {
  class = ttl_invalid;
  status = 422;
  code = str (codes "TTL_INVALID");
  detail = null;
  pointer = null;
  meta = none;
  retry_after = none;
}

-- dataset or {}
abbrev pub dataset_or_empty : Option Fields → Fields
dataset_or_empty none = end
dataset_or_empty (some fields) = fields

-- The value that `ProofResult.parse` calls `startswith` on; only a text has it.
unfoldable pub text_of_json : Json → Result Str
text_of_json (str s) = ok s
text_of_json v = err attribute_error

module _ (ctx : Context) where
  -- the answer of a call, as a machine
  unfoldable pub machine_call : Operation → Option Json → Session MachineReading
  unfolding call
  machine_call op body = do
    answer ← call ctx op body []
    lift (parse_machine_resource ctx.reader answer)

  unfoldable pub create : Str → Str → MachineAttributes → Session MachineReading
  unfolding machine_call create_body
  create license_id fingerprint attrs =
      machine_call Operation.create_machine (some (create_body license_id fingerprint attrs))

  unfoldable pub delete : Str → Session (Unit {0})
  unfolding call
  delete machine_id = do answer ← call ctx (Operation.delete_machine machine_id) none []; return tt

  unfoldable pub get : Str → Session MachineReading
  unfolding machine_call
  get machine_id = machine_call (Operation.get_machine machine_id) none

  -- the page that an answer and its `meta` make
  unfoldable pub page_of_answer : Json → Fields → Session MachinePage
  unfolding parse_each
  page_of_answer answer meta = do
    page ← lift (parse_page_meta meta)
    items ← lift (parse_each (parse_machine_resource ctx.reader) answer)
    return (record {
      items = items;
      page_number = page.number;
      page_size = page.size;
      total = page.total;
      total_pages = page.total_pages;
    })

  unfoldable pub list : ℤ → Option ℤ → Option Str → Option Str → Option Str → Session MachinePage
  unfolding send_request_with_meta list_params page_of_answer
  list number size search license_id platform = do
    (answer, meta) ←
        send_request_with_meta ctx (endpoint Operation.list_machines).method
          (endpoint Operation.list_machines).path none
          (list_params number size search license_id platform)
    page_of_answer answer meta

  unfoldable pub update : Str → MachineAttributes → Session MachineReading
  unfolding machine_call update_body
  update machine_id attrs =
      machine_call (Operation.update_machine machine_id) (some (update_body attrs))

  unfoldable pub ping_heartbeat : Str → Session MachineReading
  unfolding machine_call
  ping_heartbeat machine_id = machine_call (Operation.ping_heartbeat machine_id) none

  unfoldable pub reset_heartbeat : Str → Session MachineReading
  unfolding machine_call
  reset_heartbeat machine_id = machine_call (Operation.reset_heartbeat machine_id) none

  -- what follows the check of `ttl`
  unfoldable pub fetch_file : Str → Bool → Option ℤ → Bool → Session (Bytes ⊎ FileResource)
  unfolding check_out_params octet_headers send content_of call
  fetch_file machine_id encrypt ttl true = do
    (headers, params) ← lift (octet_headers ctx (check_out_params encrypt ttl))
    response ← client_request ctx (record {
      method = (endpoint (Operation.check_out_machine_bytes machine_id)).method;
      target = (endpoint (Operation.check_out_machine_bytes machine_id)).path;
      headers = headers;
      params = params;
      body = none;
    })
    content ← content_of ctx response
    return (inl content)
  fetch_file machine_id encrypt ttl false = do
    answer ←
        call ctx (Operation.check_out_machine machine_id) (some (check_out_body encrypt ttl)) []
    file ← lift (parse_file_resource answer)
    return (inr file)

  unfoldable pub check_out : Str → Bool → Option ℤ → Bool → Session (Bytes ⊎ FileResource)
  unfolding fetch_file ttl_fits
  check_out machine_id encrypt ttl as_bytes =
      if ttl_fits ttl
      then fetch_file machine_id encrypt ttl as_bytes
      else raise (api ttl_invalid_error)

  unfoldable pub generate_offline_proof : Str → Option Fields → Session ProofResult
  unfolding json_headers client_answer get_or text_of_json or_value_error
  generate_offline_proof machine_id dataset = do
    headers ← lift (json_headers ctx)
    (answer, meta) ← client_answer ctx (record {
      method = (endpoint (Operation.generate_offline_proof machine_id)).method;
      target = (endpoint (Operation.generate_offline_proof machine_id)).path;
      headers = headers;
      params = [];
      body = some (
          obj (
            field (codes "meta")
              (obj (field (codes "dataset") (obj (dataset_or_empty dataset)) end)) end));
    })
    machine ← lift (parse_machine_resource ctx.reader answer)
    account_id ← lift (or_value_error (ctx.reader.uuid ctx.config.account_id))
    raw ← lift (text_of_json (get_or meta (codes "proof") (str [])))
    lift (Proof.parse raw account_id machine.id machine.fingerprint (dataset_or_empty dataset))
