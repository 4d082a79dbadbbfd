-- ===== src/Client/Machines/Activation.antt =====
-- What `activate_machine` leaves behind, however it ends.
use tamga_python.Prelude.{
  ◌≡◌, refl, sym, ap, ◌⊎◌, inl, inr, true, false, Option, none, some, List, ◌∷◌, Bool-cases,
}
use tamga_python.Python.Str.{Str}
use tamga_python.Python.Exc.{Result, ok, err}
use tamga_python.Models.Validation.{ValidationCode}
use tamga_python.Errors.{TamgaError, MachineOverLimitError}
use tamga_python.Transport.{Raised, exc, api, Outcome, returned, raised}
use tamga_python.Client.Machines.{
  Machine, Call, create_call, validate_call, delete_call, Server, Ended, done, failed, over_limit,
  Run, run, limit_of, limit_error, create_error, is_over_limit, rolled_back_error, roll_back,
  validate_created, activate_machine,
}

pub Outcome-cases {ℓ} :
    {A : Type ℓ} (o : Outcome A) → ((r : Raised) × (o ≡ raised r)) ⊎ ((a : A) × (o ≡ returned a))
Outcome-cases (raised r) = inl (r, refl)
Outcome-cases (returned a) = inr (a, refl)

module _ (server : Server) (log : List Call) (license_id fingerprint : Str) where
  abbrev pub created : List Call
  created = create_call license_id fingerprint ∷ log

  abbrev pub validated : List Call
  validated = validate_call license_id ∷ created

  -- What an activation has done when it ends so.
  pub data Activation : Run Machine → Type 0 where
    -- Nothing was created, and nothing is deleted.
    refused :
        (r : Raised)
        → server.create log license_id fingerprint ≡ raised r
        → Activation (run (create_error r) created)
    -- The machine is kept and returned under a verdict within the limits.
    activated :
        (machine : Machine) (code : ValidationCode)
        → server.create log license_id fingerprint ≡ returned machine
        → server.validate created license_id ≡ returned code
        → is_over_limit code ≡ false
        → Activation (run (done machine) validated)
    -- The verdict is not known, and the machine is left.
    unvalidated :
        (machine : Machine) (r : Raised)
        → server.create log license_id fingerprint ≡ returned machine
        → server.validate created license_id ≡ raised r
        → Activation (run (failed r) validated)
    -- The machine that was created, and no other, is deleted under an over-limit verdict.
    rolled_back :
        (machine : Machine) (code : ValidationCode) (u : Unit {0})
        → server.create log license_id fingerprint ≡ returned machine
        → server.validate created license_id ≡ returned code
        → is_over_limit code ≡ true
        → server.delete validated machine.id ≡ returned u
        → Activation (run (rolled_back_error code) (delete_call machine.id ∷ validated))
    -- The deletion failed, and its error is raised.
    not_rolled_back :
        (machine : Machine) (code : ValidationCode) (r : Raised)
        → server.create log license_id fingerprint ≡ returned machine
        → server.validate created license_id ≡ returned code
        → is_over_limit code ≡ true
        → server.delete validated machine.id ≡ raised r
        → Activation (run (failed r) (delete_call machine.id ∷ validated))

  pub activate_machine-Activation : Activation (activate_machine server log license_id fingerprint)
  unfolding activate_machine validate_created roll_back
  activate_machine-Activation = elim (Outcome-cases (server.create log license_id fingerprint)) [
    | inl (r, e) ↦ rw (activate_machine, e) (refused r e)
    | inr (machine, e) ↦ elim (Outcome-cases (server.validate created license_id)) [
      | inl (r, f) ↦ rw (activate_machine, e, validate_created, f) (unvalidated machine r e f)
      | inr (code, f) ↦ elim (Bool-cases (is_over_limit code)) [
        | inr g ↦ rw (activate_machine, e, validate_created, f, g) (activated machine code e f g)
        | inl g ↦ elim (Outcome-cases (server.delete validated machine.id)) [
          | inl (r, d) ↦
              rw (activate_machine, e, validate_created, f, g, roll_back, d)
                (not_rolled_back machine code r e f g d)
          | inr (u, d) ↦
              rw (activate_machine, e, validate_created, f, g, roll_back, d)
                (rolled_back machine code u e f g d)
        ]
      ]
    ]
  ]

  -- What an over-limit error says: its flag tells whether a row was created and deleted again.
  abbrev pub Explained : MachineOverLimitError → List Call → Type 0
  Explained o after =
      ((o.rolled_back ≡ false)
        × (after ≡ created)
        × ((r : Raised) × (server.create log license_id fingerprint ≡ raised r)))
      ⊎ ((o.rolled_back ≡ true)
          × ((machine : Machine) × (u : Unit {0}) × (server.create log license_id fingerprint
                ≡ returned machine)
              × (server.delete validated machine.id ≡ returned u)
              × (after ≡ (delete_call machine.id ∷ validated))))

  over_limit-eq :
      {o p : MachineOverLimitError} → ◌≡◌ {A = Ended Machine} (over_limit o) (over_limit p) → o ≡ p
  over_limit-eq h = cc h

  limit_error-flag :
      (e : TamgaError) (found : Result (Option ValidationCode)) (o : MachineOverLimitError)
      → limit_error e found ≡ over_limit o
      → o.rolled_back ≡ false
  unfolding limit_error
  limit_error-flag e (err x) o h = absurd (cc h)
  limit_error-flag e (ok none) o h = absurd (cc h)
  limit_error-flag e (ok (some code)) o h =
      sym (ap (λ (p : MachineOverLimitError). p.rolled_back) (over_limit-eq h))

  create_error-flag :
      (r : Raised) (o : MachineOverLimitError)
      → create_error r ≡ over_limit o
      → o.rolled_back ≡ false
  unfolding create_error
  create_error-flag (exc x) o h = absurd (cc h)
  create_error-flag (api e) o h = limit_error-flag e (limit_of e.code) o h

  Activation-Explained :
      (r : Run Machine)
      → Activation r
      → (o : MachineOverLimitError) → r.outcome ≡ over_limit o
      → Explained o r.log
  Activation-Explained _ (refused r e) o h = inl (create_error-flag r o h, refl, (r, e))
  Activation-Explained _ (activated machine code e f g) o h = absurd (cc h)
  Activation-Explained _ (unvalidated machine r e f) o h = absurd (cc h)
  Activation-Explained _ (rolled_back machine code u e f g d) o h = inr (
    sym (ap (λ (p : MachineOverLimitError). p.rolled_back) (over_limit-eq h)),
    (machine, u, e, d, refl),
  )
  Activation-Explained _ (not_rolled_back machine code r e f g d) o h = absurd (cc h)

  -- An activation that ends with MachineOverLimitError keeps no machine: with its flag unset, the
  -- one call made was a creation that was refused; with the flag set, the machine that was created
  -- is the one that was deleted, successfully and last.
  pub activate_machine-Explained :
      (o : MachineOverLimitError)
      → (activate_machine server log license_id fingerprint).outcome ≡ over_limit o
      → Explained o (activate_machine server log license_id fingerprint).log
  activate_machine-Explained o h = Activation-Explained _ activate_machine-Activation o h
