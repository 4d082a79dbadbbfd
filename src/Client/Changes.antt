-- ===== src/Client/Changes.antt =====
-- The operations of client.py that change something at the server: each is sent once.
mod Tests
use tamga_python.Prelude.{
  ◌≡◌, refl, ◌∙◌, ℕ, ◌+◌, ◌≤◌, ◌⊎◌, inl, inr, Bool, true, false, Option, none, some, List, [], ◌∷◌,
  ◌++◌, arith, replicate,
}
use tamga_python.Python.Int.{ℤ}
use tamga_python.Python.Str.{Str, codes}
use tamga_python.Python.Json.{Json, str, Fields}
use tamga_python.Python.Exc.{Result, ok, err}
use tamga_python.Transport.{Dict, Outcome, returned, raised}
use tamga_python.Models.Resources.{
  parse_machine_resource, parse_component_resource, parse_process_resource, parse_entitlement,
}
use tamga_python.Client.Retry.{is_retryable}
use tamga_python.Client.Request.{HttpRequest, Log, Context}
use tamga_python.Client.Request.Headers.{Carries}
use tamga_python.Client.Session.{Session, return, lift, proceed, send_request}
use tamga_python.Client.Session.Sending.{
  Repeats, Issues, proceed-quiet, lift-quiet, send_request-Issues,
}
use tamga_python.Client.Endpoint.{Operation, Endpoint, endpoint}
use tamga_python.Client.Endpoint.Repetition.{Effect, effect, may_repeat, is_retryable-effect}
use tamga_python.Client.Pages.{call}
use tamga_python.Client.Entitlements
use tamga_python.Client.Entitlements.{amount_body}
use tamga_python.Client.MachineCalls
use tamga_python.Client.MachineBodies.{MachineAttributes, create_body, update_body}
use tamga_python.Client.Components
use tamga_python.Client.Components.{component_body}
use tamga_python.Client.Processes
use tamga_python.Client.Processes.{process_body}

module _ (ctx : Context) where
  -- Nothing was sent, or the operation's request, once.
  abbrev pub SentOnce : Operation → Option Json → Log → Log → Type 0
  SentOnce op body log log' =
      (log' ≡ log)
      ⊎ ((request : HttpRequest) × Carries ctx (endpoint op).method (endpoint op).path body [] none
            false request
          × (log' ≡ request ∷ log))

  single :
      (op : Operation) (body : Option Json) (log log' : Log)
      → may_repeat (effect op) ≡ false
      → Issues ctx (endpoint op).method (endpoint op).path body [] none false log log'
      → SentOnce op body log log'
  single op body log log' h (inl (unmade, e)) = inl e
  single op body log log' h (inr (request, c, r)) =
      let fixed : is_retryable request.method request.target ≡ false =
        rw (c.same_method, c.same_target) (is_retryable-effect op ∙ h) in
      let same : replicate r.count request ++ log ≡ request ∷ log = rw (r.once fixed) refl in
      inr (request, c, r.extends ∙ same)

  module _ {ℓ} {A : Type ℓ} (op : Operation) (parse : Json → Result A) (body : Option Json)
      (log : Log) (changes : may_repeat (effect op) ≡ false) where
    parsed-SentOnce :
        SentOnce op body log (proceed (call ctx op body [] log) (λ answer. lift (parse answer))).1
    unfolding call
    parsed-SentOnce =
        rw
          (proceed-quiet ctx
            (send_request ctx (endpoint op).method (endpoint op).path body [] false log)
            (λ answer. lift (parse answer)) (λ answer l. lift-quiet ctx (parse answer) l))
          (single op body log _ changes
            (send_request-Issues ctx (endpoint op).method (endpoint op).path body [] false log))

  pub create-SentOnce :
      (license_id fingerprint : Str) (attrs : MachineAttributes) (log : Log)
      → SentOnce Operation.create_machine
          (some (create_body license_id fingerprint attrs))
          log
          (MachineCalls.create ctx license_id fingerprint attrs log).1
  unfolding MachineCalls.create MachineCalls.machine_call
  create-SentOnce license_id fingerprint attrs log =
      parsed-SentOnce Operation.create_machine (parse_machine_resource ctx.reader) _ log refl

  update-SentOnce :
      (machine_id : Str) (attrs : MachineAttributes) (log : Log)
      → SentOnce
          (Operation.update_machine machine_id)
          (some (update_body attrs))
          log
          (MachineCalls.update ctx machine_id attrs log).1
  unfolding MachineCalls.update MachineCalls.machine_call
  update-SentOnce machine_id attrs log =
      parsed-SentOnce (Operation.update_machine machine_id) (parse_machine_resource ctx.reader) _
        log refl

  component-SentOnce :
      (machine_id fingerprint name : Str) (metadata : Option Fields) (log : Log)
      → SentOnce Operation.create_component
          (some (component_body machine_id fingerprint name metadata))
          log
          (Components.create ctx machine_id fingerprint name metadata log).1
  unfolding Components.create
  component-SentOnce machine_id fingerprint name metadata log =
      parsed-SentOnce Operation.create_component (parse_component_resource ctx.reader) _ log refl

  increment-SentOnce :
      (license_id id : Str) (amount : Option ℤ) (log : Log)
      → SentOnce
          (Operation.increment_usage license_id id)
          (amount_body (codes "increment") amount)
          log
          (Entitlements.increment_entitlement_usage ctx license_id id amount log).1
  unfolding Entitlements.increment_entitlement_usage
  increment-SentOnce license_id id amount log =
      parsed-SentOnce (Operation.increment_usage license_id id) (parse_entitlement ctx.reader) _ log
        refl

  decrement-SentOnce :
      (license_id id : Str) (amount : Option ℤ) (log : Log)
      → SentOnce
          (Operation.decrement_usage license_id id)
          (amount_body (codes "decrement") amount)
          log
          (Entitlements.decrement_entitlement_usage ctx license_id id amount log).1
  unfolding Entitlements.decrement_entitlement_usage
  decrement-SentOnce license_id id amount log =
      parsed-SentOnce (Operation.decrement_usage license_id id) (parse_entitlement ctx.reader) _ log
        refl

  reset-SentOnce :
      (license_id id : Str) (log : Log)
      → SentOnce
          (Operation.reset_usage license_id id)
          none
          log
          (Entitlements.reset_entitlement_usage ctx license_id id log).1
  unfolding Entitlements.reset_entitlement_usage
  reset-SentOnce license_id id log =
      parsed-SentOnce (Operation.reset_usage license_id id) (parse_entitlement ctx.reader) _ log
        refl

  deleted-SentOnce :
      (op : Operation) (log : Log)
      → may_repeat (effect op) ≡ false
      → SentOnce op none log
          (proceed (call ctx op none [] log) (λ answer. return {A = Unit {0}} tt)).1
  unfolding call
  deleted-SentOnce op log changes =
      rw
        (proceed-quiet ctx
          (send_request ctx (endpoint op).method (endpoint op).path none [] false log)
          (λ answer. return {A = Unit {0}} tt) (λ answer l. refl))
        (single op none log _ changes
          (send_request-Issues ctx (endpoint op).method (endpoint op).path none [] false log))

  pub delete-SentOnce :
      (machine_id : Str) (log : Log)
      → SentOnce
          (Operation.delete_machine machine_id)
          none
          log
          (MachineCalls.delete ctx machine_id log).1
  unfolding MachineCalls.delete
  delete-SentOnce machine_id log = deleted-SentOnce (Operation.delete_machine machine_id) log refl

  process-SentOnce :
      (machine_id pid : Str) (metadata : Option Fields) (log : Log)
      → SentOnce Operation.create_process
          (some (process_body machine_id pid metadata))
          log
          (Processes.create ctx machine_id (str pid) metadata log).1
  unfolding Processes.create
  process-SentOnce machine_id pid metadata log =
      parsed-SentOnce Operation.create_process (parse_process_resource ctx.reader) _ log refl

  -- An operation that changes something is sent at most once, however the server answers and
  -- whatever the budget of retries is: the creations, the update and the deletions, and the changes
  -- of a meter. What is sent is the operation's method, path and body, with no parameters but the
  -- credential's.
  pub changes-SentOnce :
      (license_id id fingerprint name : Str) (attrs : MachineAttributes) (metadata : Option Fields)
      (amount : Option ℤ) (log : Log)
      → SentOnce Operation.create_machine
          (some (create_body license_id fingerprint attrs))
          log
          (MachineCalls.create ctx license_id fingerprint attrs log).1
        × SentOnce
            (Operation.update_machine id)
            (some (update_body attrs))
            log
            (MachineCalls.update ctx id attrs log).1
        × SentOnce (Operation.delete_machine id) none log (MachineCalls.delete ctx id log).1
        × SentOnce Operation.create_component
            (some (component_body id fingerprint name metadata))
            log
            (Components.create ctx id fingerprint name metadata log).1
        × SentOnce Operation.create_process
            (some (process_body id name metadata))
            log
            (Processes.create ctx id (str name) metadata log).1
        × SentOnce (Operation.delete_process id) none log (Processes.delete ctx id log).1
        × SentOnce
            (Operation.increment_usage license_id id)
            (amount_body (codes "increment") amount)
            log
            (Entitlements.increment_entitlement_usage ctx license_id id amount log).1
        × SentOnce
            (Operation.decrement_usage license_id id)
            (amount_body (codes "decrement") amount)
            log
            (Entitlements.decrement_entitlement_usage ctx license_id id amount log).1
        × SentOnce
            (Operation.reset_usage license_id id)
            none
            log
            (Entitlements.reset_entitlement_usage ctx license_id id log).1
  unfolding Processes.delete
  changes-SentOnce license_id id fingerprint name attrs metadata amount log = (
    create-SentOnce license_id fingerprint attrs log,
    update-SentOnce id attrs log,
    delete-SentOnce id log,
    component-SentOnce id fingerprint name metadata log,
    process-SentOnce id name metadata log,
    deleted-SentOnce (Operation.delete_process id) log refl,
    increment-SentOnce license_id id amount log,
    decrement-SentOnce license_id id amount log,
    reset-SentOnce license_id id log,
  )
