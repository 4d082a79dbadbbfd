-- ===== src/Client/Samples.antt =====
-- A small server and a client of it, for examples.
use tamga_python.Prelude.{ℕ, zero, suc, ◌==◌, Option, none, some, [], ◌∷◌, if◌then◌else◌}
use tamga_python.Python.Int.{pos}
use tamga_python.Python.Str.{Str, Bytes, codes, str_eq}
use tamga_python.Python.Json.{Json, null, str, arr, obj, Items, nil, cons, Fields, end, field}
use tamga_python.Python.Exc.{Result, ok, err, json_decode_error}
use tamga_python.Transport.{AuthTransport, bearer, Response, get_item}
use tamga_python.Models.Reader.{Reader}
use tamga_python.Client.MachineBodies.{MachineAttributes}
use tamga_python.Client.Request.{TamgaConfig, HttpRequest, Context}

abbrev pub sample_config : Option AuthTransport → TamgaConfig
sample_config auth = record {
  account_id = codes "a";
  host = codes "h";
  api_version = codes "1.0";
  default_auth = auth;
  user_agent = some (codes "u");
  max_retries = pos 2;
}

-- Every text is a UUID, and no text is an instant.
abbrev pub sample_reader : Reader
sample_reader = record {
  uuid = λ s. some s;
  fromisoformat = λ s. none;
  repr = λ v. [];
  now = pos 0;
}

abbrev pub with_id : Str → Fields → Json
with_id id attributes =
    obj (field (codes "id") (str id) (field (codes "attributes") (obj attributes) end))

abbrev pub component : Str → Json
component id = with_id id (field (codes "machine_id") (str (codes "m")) end)

abbrev pub data_is : Json → Json
data_is v = obj (field (codes "data") v end)

-- The bodies that the server answers with, by their number.
abbrev pub document : ℕ → Result Json
document n =
    if n == 1
    then ok (data_is (arr (cons (component (codes "b")) (cons (component (codes "c")) nil))))
    else if n == 2
    then ok (data_is (arr (cons (component (codes "d")) nil)))
    else if n == 3
    then ok (data_is (arr (cons (component (codes "c")) (cons (component (codes "d")) nil))))
    else if n == 4
    then ok (data_is (arr nil))
    else if n == 5
    then ok (data_is (with_id (codes "r") (field (codes "redirectUrl") (str (codes "s")) end)))
    else if n == 6
    then ok (
        obj (
          field (codes "data") null (
            field (codes "meta") (obj (field (codes "code") (str (codes "TOO_MANY_MACHINES")) end))
              end)))
    else if n == 7
    then ok (
        obj (
          field (codes "errors")
            (arr (cons (obj (field (codes "code") (str (codes "FINGERPRINT_TAKEN")) end)) nil))
            end))
    else err json_decode_error

abbrev pub sample_loads : Bytes → Result Json
sample_loads (n ∷ []) = document n
sample_loads bytes = err json_decode_error

abbrev pub answer_with : Bytes → Response
answer_with content = record { status_code = 200; content = content; header = λ name. none }

abbrev pub client_of : Option AuthTransport → (HttpRequest → Response) → Context
client_of auth serve = record {
  config = sample_config auth;
  http = λ log request. ok (serve request);
  json_loads = sample_loads;
  isalnum = λ c. c == b'1';
  reader = sample_reader;
}

-- A server of the components b, c and d, in pages of two.
abbrev pub page_after : Option Str → Bytes
page_after none = 1 ∷ []
page_after (some after) =
    if str_eq after (codes "b") then 3 ∷ [] else if str_eq after (codes "c") then 2 ∷ [] else 4 ∷ []

abbrev pub component_client : Context
component_client =
    client_of (some (bearer (codes "t")))
      (λ request. answer_with (page_after (get_item request.params (codes "page[after]"))))

-- A server that answers with at most a hundred rows, of which it has more.
abbrev pub many : ℕ → Items → Items
many zero rest = rest
many (suc n) rest = cons (component (codes "b")) (many n rest)

abbrev pub short_client : Context
short_client = record (client_of none (λ request. answer_with (0 ∷ []))) {
  json_loads = λ bytes. ok (data_is (arr (many 100 nil)));
}

abbrev pub bare_machine : MachineAttributes
bare_machine = record {
  name = none;
  ip = none;
  hostname = none;
  platform = none;
  cores = none;
  memory = none;
  disk = none;
  metadata = none;
}
