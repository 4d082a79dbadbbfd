-- ===== src/Client/Machines/Adoption.antt =====
-- The adoption of the machine that already holds a fingerprint.
use mathlib.Core.Path.{subst}
use tamga_python.Prelude.{
  ◌≡◌, ◌≢◌, refl, sym, ap, ◌∙◌, ◌⊎◌, inl, inr, ℕ, ◌≤◌, true, Option, none, some, List, [], ◌∷◌,
  ◌++◌, arith, All, All-append, append_assoc, length, length-append, Bool-cases, Option-cases,
}
use tamga_python.Python.Str.{Str}
use tamga_python.Errors.{TamgaError, MachineOverLimitError}
use tamga_python.Transport.{Raised, raised}
use tamga_python.Client.Machines.{
  Machine, Call, get_call, list_call, Server, Ended, done, failed, over_limit, Run, run,
  has_fingerprint, activate_machine, find_by_fingerprint, is_not_found, adopt_named,
  existing_machine_id, resolve_taken_fingerprint, unresolved, found_or_conflict, as_conflict,
  activate_machine_idempotent, max_machine_search_pages,
}
use tamga_python.Client.Machines.Activation.{Outcome-cases}
use tamga_python.Client.Machines.Search.{Fails, find_by_fingerprint-Searched}

-- A call that changes nothing on the server.
abbrev pub IsRead : Call → Type 0
IsRead (get_call id) = Unit
IsRead (list_call number fingerprint license_id) = Unit
IsRead _ = ⊥

reads_of_listings :
    (fingerprint license_id : Str) (calls : List Call)
    → All (λ c. (number : ℕ) × (c ≡ list_call number fingerprint license_id)) calls
    → All IsRead calls
reads_of_listings fingerprint license_id [] h = tt
reads_of_listings fingerprint license_id (c ∷ calls) ((n, e), h) =
    (subst (λ (d : Call). IsRead d) (sym e) tt, reads_of_listings fingerprint license_id calls h)

-- A search for the machine after `log`: it only reads, by at most 21 calls, and a machine that it
-- finds has the fingerprint.
record Resolved (server : Server) (fingerprint license_id : Str) (log : List Call)
    (r : Run (Option Machine)) : Type 0 where
  calls : List Call
  logged : r.log ≡ calls ++ log
  reads : All IsRead calls
  few : length calls ≤ 21
  exact :
      (machine : Machine)
      → r.outcome ≡ done (some machine)
      → has_fingerprint fingerprint machine ≡ true
  no_rollback : (o : MachineOverLimitError) → r.outcome ≢ over_limit o
  fails : (x : Raised) → r.outcome ≡ failed x → Fails server fingerprint license_id r.log x

module _ (server : Server) (fingerprint license_id : Str) where
  searched :
      (log : List Call)
      → Resolved server fingerprint license_id log
          (find_by_fingerprint server log fingerprint license_id max_machine_search_pages)
  searched log =
      let s =
        find_by_fingerprint-Searched server fingerprint license_id max_machine_search_pages log in
      record {
        calls = s.calls;
        logged = s.logged;
        reads = reads_of_listings fingerprint license_id s.calls s.listings;
        few = omega (arith, s.few);
        exact = s.exact;
        no_rollback = s.no_rollback;
        fails = s.fails;
      }

  after_get :
      (id : Str) (log : List Call)
      → Resolved server fingerprint license_id log (
          find_by_fingerprint server
            (get_call id ∷ log)
            fingerprint
            license_id
            max_machine_search_pages)
  after_get id log =
      let s =
        find_by_fingerprint-Searched server fingerprint license_id max_machine_search_pages
          (get_call id ∷ log) in
      record {
        calls = s.calls ++ (get_call id ∷ []);
        logged = s.logged ∙ sym (append_assoc s.calls (get_call id ∷ []) log);
        reads =
            All-append IsRead s.calls (get_call id ∷ [])
              (reads_of_listings fingerprint license_id s.calls s.listings) (tt, tt);
        few = omega (arith, length-append s.calls (get_call id ∷ []), s.few);
        exact = s.exact;
        no_rollback = s.no_rollback;
        fails = s.fails;
      }

  only_get :
      (id : Str) (log : List Call) (outcome : Ended (Option Machine))
      → ((machine : Machine)
          → outcome ≡ done (some machine)
          → has_fingerprint fingerprint machine ≡ true)
      → ((o : MachineOverLimitError) → outcome ≢ over_limit o)
      → ((x : Raised) → outcome ≡ failed x → server.get log id ≡ raised x)
      → Resolved server fingerprint license_id log (run outcome (get_call id ∷ log))
  only_get id log outcome h k f = record {
    calls = get_call id ∷ [];
    logged = refl;
    reads = (tt, tt);
    few = omega arith;
    exact = h;
    no_rollback = k;
    fails = λ x e. inl (f x e);
  }

  adopt_named-Resolved :
      (id : Str) (log : List Call)
      → Resolved server fingerprint license_id log
          (adopt_named server log id license_id fingerprint)
  unfolding adopt_named
  adopt_named-Resolved id log = elim (Outcome-cases (server.get log id)) [
    | inl (r, e) ↦ elim (Bool-cases (is_not_found r)) [
      | inl f ↦ rw (adopt_named, e, f) (after_get id log)
      | inr f ↦
          rw (adopt_named, e, f)
            (only_get id log (failed r) (λ m h. absurd (cc h)) (λ o h. absurd (cc h))
              (λ x h. e ∙ ap raised (cc h)))
    ]
    | inr (machine, e) ↦ elim (Bool-cases (has_fingerprint fingerprint machine)) [
      | inl f ↦
          rw (adopt_named, e, f)
            (only_get id log (done (some machine))
              (λ m h. let same : machine ≡ m = cc h in rw same at f) (λ o h. absurd (cc h))
              (λ x h. absurd (cc h)))
      | inr f ↦ rw (adopt_named, e, f) (after_get id log)
    ]
  ]

  resolve_taken_fingerprint-Resolved :
      (parse_uuid : Str → Option Str) (conflict : TamgaError) (log : List Call)
      → Resolved server fingerprint license_id log
          (resolve_taken_fingerprint server parse_uuid conflict log license_id fingerprint)
  unfolding resolve_taken_fingerprint
  resolve_taken_fingerprint-Resolved parse_uuid conflict log =
      elim (Option-cases (existing_machine_id parse_uuid conflict)) [
        | inl e ↦ rw (resolve_taken_fingerprint, e) (searched log)
        | inr (id, e) ↦ rw (resolve_taken_fingerprint, e) (adopt_named-Resolved id log)
      ]

-- A recovery from a conflict after `log`.
pub record Recovered (server : Server) (fingerprint license_id : Str) (conflict : TamgaError)
    (log : List Call) (r : Run Machine) : Type 0 where
  pub calls : List Call
  pub logged : r.log ≡ calls ++ log
  pub reads : All IsRead calls
  pub few : length calls ≤ 21
  pub ending :
      ((machine : Machine) × (r.outcome ≡ done machine)
        × (has_fingerprint fingerprint machine ≡ true))
      ⊎ (r.outcome ≡ failed (unresolved conflict))
      ⊎ ((x : Raised) × (r.outcome ≡ failed x) × Fails server fingerprint license_id r.log x)

module _ (server : Server) (fingerprint license_id : Str) (conflict : TamgaError)
    (log : List Call) where
  recovery :
      (r : Run (Option Machine)) (ended : Run Machine)
      → Resolved server fingerprint license_id log r
      → ended.log ≡ r.log
      → ((machine : Machine) × (ended.outcome ≡ done machine)
          × (has_fingerprint fingerprint machine ≡ true))
        ⊎ (ended.outcome ≡ failed (unresolved conflict))
        ⊎ ((x : Raised) × (ended.outcome ≡ failed x)
            × Fails server fingerprint license_id ended.log x)
      → Recovered server fingerprint license_id conflict log ended
  recovery r ended s same ending = record {
    calls = s.calls;
    logged = same ∙ s.logged;
    reads = s.reads;
    few = s.few;
    ending = ending;
  }

  found_or_conflict-Recovered :
      (r : Run (Option Machine)) (outcome : Ended (Option Machine))
      → r.outcome ≡ outcome
      → Resolved server fingerprint license_id log r
      → Recovered server fingerprint license_id conflict log
          (found_or_conflict conflict outcome r.log)
  unfolding found_or_conflict
  found_or_conflict-Recovered r (failed x) h s =
      recovery r _ s refl (inr (inr (x, refl, s.fails x h)))
  found_or_conflict-Recovered r (over_limit o) h s = absurd (s.no_rollback o h)
  found_or_conflict-Recovered r (done none) h s = recovery r _ s refl (inr (inl refl))
  found_or_conflict-Recovered r (done (some machine)) h s =
      recovery r _ s refl (inl (machine, refl, s.exact machine h))

pub activate_machine_idempotent-passes :
    (parse_uuid : Str → Option Str) (server : Server) (log : List Call)
    (license_id fingerprint : Str)
    → as_conflict (activate_machine server log license_id fingerprint).outcome ≡ none
    → activate_machine_idempotent parse_uuid server log license_id fingerprint
      ≡ activate_machine server log license_id fingerprint
unfolding activate_machine_idempotent
activate_machine_idempotent-passes parse_uuid server log license_id fingerprint e =
    rw (activate_machine_idempotent, e) refl

-- After a FingerprintTakenError the recovery only reads, by at most 21 calls after those of the
-- activation: no machine is deleted and no license is validated. It returns a machine that has
-- exactly the fingerprint, or raises the conflict again, or what its latest call raised, or
-- ValueError where the fingerprint is blank.
pub activate_machine_idempotent-Recovered :
    (parse_uuid : Str → Option Str) (server : Server) (log : List Call)
    (license_id fingerprint : Str) (conflict : TamgaError)
    → as_conflict (activate_machine server log license_id fingerprint).outcome ≡ some conflict
    → Recovered server fingerprint license_id conflict
        (activate_machine server log license_id fingerprint).log
        (activate_machine_idempotent parse_uuid server log license_id fingerprint)
unfolding activate_machine_idempotent
activate_machine_idempotent-Recovered parse_uuid server log license_id fingerprint conflict e =
    let first = activate_machine server log license_id fingerprint in
    let found =
      resolve_taken_fingerprint server parse_uuid conflict first.log license_id fingerprint in
    rw (activate_machine_idempotent, e)
      (found_or_conflict-Recovered server fingerprint license_id conflict first.log found
        found.outcome refl
        (resolve_taken_fingerprint-Resolved server fingerprint license_id parse_uuid conflict
          first.log))
