-- ===== src/Client/Credential.antt =====
-- The calls of client.py that make their own headers, and what becomes of a credential that is a query
-- parameter.
mod Tests
use tamga_python.Prelude.{
  ◌≡◌, refl, ◌∙◌, ◌⊎◌, inl, inr, Bool, true, false, Option, none, some, [], ◌∷◌, leb,
}
use tamga_python.Python.Int.{ℤ}
use tamga_python.Python.Str.{Str, Bytes, codes, str_eq, str_eq-apart}
use tamga_python.Python.Json.{Json, Fields, str, obj, field, end, get_or}
use tamga_python.Python.Exc.{Exc, Result, ok, err, Result-cases, or_value_error}
use tamga_python.Transport.{
  AuthTransport, license, query_param, Dict, get_item, set_item, sanitize_tamga_version, apply_auth,
  Response,
}
use tamga_python.Transport.Auth.{get_item-set_item-other}
use tamga_python.Models.Records.{FileResource}
use tamga_python.Models.Resources.{parse_machine_resource}
use tamga_python.Client.Retry.{is_retryable}
use tamga_python.Client.Request.{
  HttpRequest, Log, Context, effective_auth, authenticated, with_user_agent, base_headers,
  license_headers, json_headers,
}
use tamga_python.Client.Session.{
  Session, return, lift, proceed, ◌>>=◌, send, client_answer, content_of,
}
use tamga_python.Client.Session.Sending.{
  Repeats, Quiet, bind-Quiet, proceed-quiet, lift-quiet, send-Sent, client_answer-Repeats,
  content_of-Quiet,
}
use tamga_python.Client.Endpoint.{Operation, endpoint}
use tamga_python.Client.Licenses.{
  LicenseScope, check_out_params, validation_body, license_request, validate_by_key, validate_by_id,
  validation_result,
}
use tamga_python.Client.Licenses
use tamga_python.Client.Licenses.Validation.{validation_result-Quiet}
use tamga_python.Client.MachineCalls.{dataset_or_empty, text_of_json, generate_offline_proof}
use tamga_python.Proof.{ProofResult}
use tamga_python.Proof

module _ (ctx : Context) where
  -- The headers are made, without a credential, or the version of the configuration is refused.
  abbrev Bare : Result Dict → Type 0
  Bare made =
      ((x : Exc) × (sanitize_tamga_version ctx.isalnum ctx.config.api_version ≡ err x)
        × (made ≡ err x))
      ⊎ ((headers : Dict) × (made ≡ ok headers) × (get_item headers (codes "Authorization") ≡ none))

  agent_bare :
      (version : Str) (agent : Option Str)
      → get_item (with_user_agent agent (base_headers version false)) (codes "Authorization") ≡ none
  unfolding with_user_agent get_item set_item str_eq
  agent_bare version none = refl
  agent_bare version (some []) = refl
  agent_bare version (some (c ∷ agent)) = refl

  base_bare : (version : Str) → get_item (base_headers version false) (codes "Authorization") ≡ none
  unfolding get_item str_eq
  base_bare version = refl

  license_headers-Bare :
      (auth_override : Option AuthTransport) (value name : Str)
      → effective_auth auth_override ctx.config.default_auth ≡ some (query_param value name)
      → Bare (license_headers ctx auth_override)
  unfolding license_headers authenticated apply_auth
  license_headers-Bare auth_override value name h =
      elim (Result-cases (sanitize_tamga_version ctx.isalnum ctx.config.api_version)) [
        | inr (x, e) ↦ inl (x, e, rw (license_headers, e) refl)
        | inl (version, e) ↦ inr (
          with_user_agent ctx.config.user_agent (base_headers version false),
          rw (license_headers, e, h) refl,
          agent_bare version ctx.config.user_agent,
        )
      ]

  json_headers-Bare :
      (value name : Str)
      → ctx.config.default_auth ≡ some (query_param value name)
      → Bare (json_headers ctx)
  unfolding json_headers authenticated apply_auth
  json_headers-Bare value name h =
      elim (Result-cases (sanitize_tamga_version ctx.isalnum ctx.config.api_version)) [
        | inr (x, e) ↦ inl (x, e, rw (json_headers, e) refl)
        | inl (version, e) ↦
            inr (base_headers version false, rw (json_headers, e, h) refl, base_bare version)
      ]

  -- A request of the operation was sent, and again after answers of 429, that has no Authorization
  -- header and these parameters alone; or nothing, where the version of the configuration is
  -- refused.
  abbrev pub Unauthenticated : Operation → Dict → Log → Log → Type 0
  Unauthenticated op params log log' =
      ((x : Exc) × (sanitize_tamga_version ctx.isalnum ctx.config.api_version ≡ err x)
        × (log' ≡ log))
      ⊎ ((request : HttpRequest) × (request.method ≡ (endpoint op).method)
          × (request.target ≡ (endpoint op).path)
          × (get_item request.headers (codes "Authorization") ≡ none)
          × (request.params ≡ params)
          × Repeats ctx request log log')

  abbrev request_with : Operation → Dict → Option Json → Dict → HttpRequest
  request_with op params body headers = record {
    method = (endpoint op).method;
    target = (endpoint op).path;
    headers = headers;
    params = params;
    body = body;
  }

  answered :
      (op : Operation) (body : Option Json) (made : Result Dict) (log : Log)
      → Bare made
      → Unauthenticated op [] log
          (proceed
            (lift made log)
            (λ headers. client_answer ctx (request_with op [] body headers))).1
  answered op body made log (inl (x, refused, e)) = inl (x, refused, rw e refl)
  answered op body made log (inr (headers, e, bare)) = inr (
    request_with op [] body headers,
    refl,
    refl,
    bare,
    refl,
    rw e (client_answer-Repeats ctx (request_with op [] body headers) log),
  )

  answered_then :
      {A : Type 0} (op : Operation) (body : Option Json) (made : Result Dict) (log : Log)
      (next : Json × Fields → Session A)
      → ((answer : Json × Fields) → Quiet ctx (next answer))
      → Bare made
      → Unauthenticated op [] log
          (proceed
            (lift made log)
            (λ headers. client_answer ctx (request_with op [] body headers) >>= next)).1
  answered_then op body made log next quiet (inl (x, refused, e)) = inl (x, refused, rw e refl)
  answered_then op body made log next quiet (inr (headers, e, bare)) =
      let request = request_with op [] body headers in
      inr (
        request,
        refl,
        refl,
        bare,
        refl,
        rw (e, proceed-quiet ctx (client_answer ctx request log) next quiet)
            (client_answer-Repeats ctx request log),
      )

  license_request-Unauthenticated :
      (op : Operation) (auth_override : Option AuthTransport) (body : Option Json)
      (value name : Str) (log : Log)
      → effective_auth auth_override ctx.config.default_auth ≡ some (query_param value name)
      → Unauthenticated op [] log (license_request ctx op auth_override body log).1
  unfolding license_request
  license_request-Unauthenticated op auth_override body value name log h =
      answered op body (license_headers ctx auth_override) log
        (license_headers-Bare auth_override value name h)

  module _ (value name : Str)
      (by_query : ctx.config.default_auth ≡ some (query_param value name)) where
    validate_by_key-Unauthenticated :
        (key : Str) (log : Log)
        → Unauthenticated Operation.validate_by_key [] log (validate_by_key ctx key log).1
    unfolding validate_by_key
    validate_by_key-Unauthenticated key log =
        let auth = effective_auth ctx.config.default_auth (some (license key)) in
        let body = some (obj (field (codes "key") (str key) end)) in
        rw
          (proceed-quiet ctx (license_request ctx Operation.validate_by_key auth body log)
            (λ (license_data, meta). validation_result ctx license_data meta)
            (λ (license_data, meta) l. validation_result-Quiet ctx license_data meta l))
          (license_request-Unauthenticated Operation.validate_by_key auth body value name log
            (rw by_query refl))

    validate_by_id-Unauthenticated :
        (license_id : Str) (scope : Option LicenseScope) (skip_touch : Bool) (log : Log)
        → Unauthenticated
            (Operation.validate_by_id license_id)
            []
            log
            (validate_by_id ctx license_id scope skip_touch log).1
    unfolding validate_by_id
    validate_by_id-Unauthenticated license_id scope skip_touch log =
        let op = Operation.validate_by_id license_id in
        let body = validation_body scope skip_touch in
        rw
          (proceed-quiet ctx (license_request ctx op none body log)
            (λ (license_data, meta). validation_result ctx license_data meta)
            (λ (license_data, meta) l. validation_result-Quiet ctx license_data meta l))
          (license_request-Unauthenticated op none body value name log by_query)

    abbrev keep_content : Response → Session (Bytes ⊎ FileResource)
    keep_content response =
        content_of ctx response >>= λ content. return {A = Bytes ⊎ FileResource} (inl content)

    keep_content-Quiet : (response : Response) → Quiet ctx (keep_content response)
    keep_content-Quiet response =
        bind-Quiet ctx (content_of ctx response) _ (content_of-Quiet ctx response)
          (λ content l. refl)

    fetched :
        (op : Operation) (params : Dict) (made : Result Dict) (log : Log)
        → Bare made
        → Unauthenticated op params log
            (proceed (lift made log) (λ headers.
              send ctx (
                request_with op params none
                  (set_item headers (codes "Accept") (codes "application/octet-stream")))
              >>= keep_content)).1
    unfolding str_eq
    fetched op params made log (inl (x, refused, e)) = inl (x, refused, rw e refl)
    fetched op params made log (inr (headers, e, bare)) =
        let request =
          request_with op params none
            (set_item headers (codes "Accept") (codes "application/octet-stream")) in
        inr (
          request,
          refl,
          refl,
          get_item-set_item-other headers (codes "Accept") (codes "application/octet-stream")
                (codes "Authorization") (str_eq-apart (codes "Accept") (codes "Authorization") refl)
              ∙ bare,
          refl,
          rw (e, proceed-quiet ctx (send ctx request log) keep_content keep_content-Quiet)
              (send-Sent ctx request log).0,
        )

    check_out-Unauthenticated :
        (license_id : Str) (encrypt : Bool) (ttl : Option ℤ) (log : Log)
        → Unauthenticated
            (Operation.check_out_license_bytes license_id)
            (check_out_params encrypt ttl)
            log
            (Licenses.check_out ctx license_id encrypt ttl true log).1
    unfolding Licenses.check_out
    check_out-Unauthenticated license_id encrypt ttl log =
        fetched (Operation.check_out_license_bytes license_id) (check_out_params encrypt ttl)
          (license_headers ctx none) log (license_headers-Bare none value name by_query)

    abbrev dataset_body : Option Fields → Json
    dataset_body dataset = obj (
        field (codes "meta") (obj (field (codes "dataset") (obj (dataset_or_empty dataset)) end))
          end)

    abbrev proof_of : Option Fields → Json × Fields → Session ProofResult
    proof_of dataset (answer, meta) = lift (parse_machine_resource ctx.reader answer) >>= λ machine.
        lift (or_value_error (ctx.reader.uuid ctx.config.account_id)) >>= λ account_id.
        lift (text_of_json (get_or meta (codes "proof") (str []))) >>= λ raw.
        lift (Proof.parse raw account_id machine.id machine.fingerprint (dataset_or_empty dataset))

    proof_of-Quiet : (dataset : Option Fields) (a : Json × Fields) → Quiet ctx (proof_of dataset a)
    proof_of-Quiet dataset (answer, meta) =
        bind-Quiet ctx (lift (parse_machine_resource ctx.reader answer)) _ (lift-quiet ctx _)
          (λ machine.
            bind-Quiet ctx (lift (or_value_error (ctx.reader.uuid ctx.config.account_id))) _
              (lift-quiet ctx _)
              (λ account_id.
                bind-Quiet ctx (lift (text_of_json (get_or meta (codes "proof") (str [])))) _
                  (lift-quiet ctx _) (λ raw. lift-quiet ctx _)))

    generate_offline_proof-Unauthenticated :
        (machine_id : Str) (dataset : Option Fields) (log : Log)
        → Unauthenticated
            (Operation.generate_offline_proof machine_id)
            []
            log
            (generate_offline_proof ctx machine_id dataset log).1
    unfolding generate_offline_proof
    generate_offline_proof-Unauthenticated machine_id dataset log =
        answered_then (Operation.generate_offline_proof machine_id) (some (dataset_body dataset))
          (json_headers ctx) log (proof_of dataset) (proof_of-Quiet dataset)
          (json_headers-Bare value name by_query)

    -- With a credential that is a query parameter, a validation by key or by id, a check-out of a
    -- license as bytes and an offline proof are sent with no Authorization header, and with no other
    -- query parameter than those of the check-out, so without the credential. They are sent, save
    -- where the version of the configuration is refused.
    pub query_param-dropped :
        (id : Str) (log : Log)
        → Unauthenticated Operation.validate_by_key [] log (validate_by_key ctx id log).1
          × ((scope : Option LicenseScope) (skip_touch : Bool)
              → Unauthenticated
                  (Operation.validate_by_id id)
                  []
                  log
                  (validate_by_id ctx id scope skip_touch log).1)
          × ((encrypt : Bool) (ttl : Option ℤ)
              → Unauthenticated
                  (Operation.check_out_license_bytes id)
                  (check_out_params encrypt ttl)
                  log
                  (Licenses.check_out ctx id encrypt ttl true log).1)
          × ((dataset : Option Fields)
              → Unauthenticated
                  (Operation.generate_offline_proof id)
                  []
                  log
                  (generate_offline_proof ctx id dataset log).1)
    query_param-dropped id log = (
      validate_by_key-Unauthenticated id log,
      (λ scope skip_touch. validate_by_id-Unauthenticated id scope skip_touch log),
      (λ encrypt ttl. check_out-Unauthenticated id encrypt ttl log),
      (λ dataset. generate_offline_proof-Unauthenticated id dataset log),
    )
