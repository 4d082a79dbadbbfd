-- ===== src/Client/Machines/Recovery.antt =====
-- The requests of `activate_machine_idempotent` after a conflict.
use native.Mathlib.Nat.{suc-mul, mul-le-mul_right}
use tamga_python.Prelude.{
  All-replicate, length-replicate, ◌≡◌, refl, sym, ap, ◌∙◌, inl, inr, ℕ, suc, ◌+◌, ◌*◌, ◌≤◌, false,
  Option, none, some, List, [], ◌∷◌, ◌++◌, arith, All, All-append, append_assoc, length,
  length-append, replicate,
}
use tamga_python.Python.Int.{ℤ, pos, pos_part}
use tamga_python.Python.Str.{Str, codes}
use tamga_python.Errors.{TamgaError}
use tamga_python.Client.Request.{HttpRequest, Log, Context}
use tamga_python.Client.Session.Sending.{
  Issues, Quiet, bind-Quiet, proceed-quiet, lift-quiet, send_request-Issues,
  send_request_with_meta-Issues,
}
use tamga_python.Client.Session.{lift, send_request, send_request_with_meta}
use tamga_python.Python.Json.{Json, Fields}
use tamga_python.Models.Meta.{parse_page_meta}
use tamga_python.Models.Reader.{parse_each}
use tamga_python.Models.Resources.{parse_machine_resource}
use tamga_python.Client.MachineCalls
use tamga_python.Client.MachineCalls.{page_of_answer}
use tamga_python.Client.MachineBodies.{MachineAttributes, list_params}
use tamga_python.Client.Endpoint.{Operation, endpoint}
use tamga_python.Client.Pages.{call, max_page_size}
use tamga_python.Client.Machines.{
  Call, create_call, validate_call, delete_call, get_call, list_call, activate_machine,
  activate_machine_idempotent, as_conflict,
}
use tamga_python.Client.Machines.Adoption.{IsRead, activate_machine_idempotent-Recovered}
use tamga_python.Client.Machines.Wire.{perform, requests, wire}

abbrev pub IsGet : HttpRequest → Type 0
IsGet request = request.method ≡ codes "GET"

module _ (ctx : Context) where
  abbrev turns : ℕ
  turns = suc (pos_part ctx.config.max_retries)

  -- At most so many requests were added, and all of them only read.
  pub record Reads (budget : ℕ) (log log' : Log) : Type 0 where
    pub sent : Log
    pub added : log' ≡ sent ++ log
    pub gets : All IsGet sent
    pub few : length sent ≤ budget

  Issues-Reads :
      (path : Str) (params : _) (log log' : Log)
      → Issues ctx (codes "GET") path none params none false log log'
      → Reads turns log log'
  Issues-Reads path params log log' (inl (unmade, e)) = record {
    sent = [];
    added = e;
    gets = tt;
    few = omega arith;
  }
  Issues-Reads path params log log' (inr (request, c, r)) = record {
    sent = replicate r.count request;
    added = r.extends;
    gets = All-replicate IsGet request r.count c.same_method;
    few = omega (arith, length-replicate r.count request, r.in_budget);
  }

  Reads-then :
      (a b : ℕ) (log log' log'' : Log)
      → Reads a log log'
      → Reads b log' log''
      → Reads (b + a) log log''
  Reads-then a b log log' log'' r s = record {
    sent = s.sent ++ r.sent;
    added = s.added ∙ ap (λ l. s.sent ++ l) r.added ∙ sym (append_assoc s.sent r.sent log);
    gets = All-append IsGet s.sent r.sent s.gets r.gets;
    few = omega (arith, length-append s.sent r.sent, s.few, r.few);
  }

  Reads-more : (a b : ℕ) (log log' : Log) → a ≤ b → Reads a log log' → Reads b log log'
  Reads-more a b log log' h r = record {
    sent = r.sent;
    added = r.added;
    gets = r.gets;
    few = omega (arith, h, r.few);
  }

  get-Reads :
      (machine_id : Str) (log : Log) → Reads turns log (MachineCalls.get ctx machine_id log).1
  unfolding MachineCalls.get MachineCalls.machine_call call
  get-Reads machine_id log =
      let route = endpoint (Operation.get_machine machine_id) in
      rw
        (proceed-quiet ctx (send_request ctx route.method route.path none [] false log)
          (λ answer. lift (parse_machine_resource ctx.reader answer))
          (λ answer l. lift-quiet ctx (parse_machine_resource ctx.reader answer) l))
        (Issues-Reads route.path [] log _
          (send_request-Issues ctx route.method route.path none [] false log))

  page_of_answer-Quiet :
      (answer : Json) (meta : Fields) → Quiet ctx (page_of_answer ctx answer meta)
  unfolding page_of_answer
  page_of_answer-Quiet answer meta =
      bind-Quiet ctx (lift (parse_page_meta meta)) _ (lift-quiet ctx (parse_page_meta meta))
        (λ page.
          bind-Quiet ctx (lift (parse_each (parse_machine_resource ctx.reader) answer)) _
            (lift-quiet ctx (parse_each (parse_machine_resource ctx.reader) answer))
            (λ items l. refl))

  list-Reads :
      (number : ℤ) (size : Option ℤ) (search license_id platform : Option Str) (log : Log)
      → Reads turns log (MachineCalls.list ctx number size search license_id platform log).1
  unfolding MachineCalls.list
  list-Reads number size search license_id platform log =
      let route = endpoint Operation.list_machines in
      let params = list_params number size search license_id platform in
      rw
        (proceed-quiet ctx (send_request_with_meta ctx route.method route.path none params log)
          (λ (answer, meta). page_of_answer ctx answer meta)
          (λ (answer, meta) l. page_of_answer-Quiet answer meta l))
        (Issues-Reads route.path params log _
          (send_request_with_meta-Issues ctx route.method route.path none params log))

  module _ (attrs : MachineAttributes) (start : Log) where
    perform-Reads :
        (c : Call) (log : Log) → IsRead c → Reads turns log (perform ctx attrs start c log)
    perform-Reads (get_call machine_id) log h = get-Reads machine_id log
    perform-Reads (list_call number fingerprint license_id) log h =
        list-Reads (pos number) (some max_page_size) (some fingerprint) (some license_id) none log
    perform-Reads (create_call license_id fingerprint) log h = elim h [ ]
    perform-Reads (validate_call license_id) log h = elim h [ ]
    perform-Reads (delete_call machine_id) log h = elim h [ ]

    requests-Reads :
        (calls before : List Call)
        → All IsRead calls
        → Reads
            (length calls * turns)
            (requests ctx attrs start before)
            (requests ctx attrs start (calls ++ before))
    requests-Reads [] before h = record { sent = []; added = refl; gets = tt; few = omega arith }
    requests-Reads (c ∷ calls) before (h, hs) =
        Reads-more (turns + length calls * turns) (suc (length calls) * turns) _ _
          (omega (arith, suc-mul (length calls) turns))
          (Reads-then (length calls * turns) turns (requests ctx attrs start before)
            (requests ctx attrs start (calls ++ before)) _ (requests-Reads calls before hs)
            (perform-Reads c (requests ctx attrs start (calls ++ before)) h))

    -- After a conflict over the fingerprint, only requests with GET are sent, whatever the server
    -- answers, and at most 21 for the first request and for each retry of the budget.
    pub activate_machine_idempotent-Reads :
        (parse_uuid : Str → Option Str) (license_id fingerprint : Str) (conflict : TamgaError)
        → as_conflict (activate_machine (wire ctx attrs start) [] license_id fingerprint).outcome
          ≡ some conflict
        → Reads
            (21 * turns)
            (requests ctx attrs start
              (activate_machine (wire ctx attrs start) [] license_id fingerprint).log)
            (requests ctx attrs start
              (activate_machine_idempotent parse_uuid
                (wire ctx attrs start)
                []
                license_id
                fingerprint).log)
    activate_machine_idempotent-Reads parse_uuid license_id fingerprint conflict e =
        let server = wire ctx attrs start in
        let first = activate_machine server [] license_id fingerprint in
        let r =
          activate_machine_idempotent-Recovered parse_uuid server [] license_id fingerprint conflict
            e in
        let reads = requests-Reads r.calls first.log r.reads in
        let few : length r.calls * turns ≤ 21 * turns = mul-le-mul_right turns r.few in
        rw (r.logged) (Reads-more (length r.calls * turns) (21 * turns) _ _ few reads)
