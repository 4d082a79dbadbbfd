-- ===== src/Client/Machines/Search.antt =====
-- The search for a machine by its exact fingerprint.
use tamga_python.Prelude.{
  ◌≡◌, ◌≢◌, refl, sym, ap, ◌∙◌, ◌⊎◌, inl, inr, ℕ, zero, suc, ◌≤◌, true, false, not, ◌||◌, Option,
  none, some, List, [], ◌∷◌, ◌++◌, arith, All, All-append, append_assoc, length, length-append,
  is_empty, Bool-cases, Option-cases,
}
use tamga_python.Python.Str.{Str, strip, is_space}
use tamga_python.Python.Exc.{value_error}
use tamga_python.Transport.{Raised, exc, returned, raised}
use tamga_python.Client.Machines.{
  Machine, OffsetPage, has_next_page, Call, get_call, list_call, Server, Ended, done, failed,
  over_limit, Run, run, has_fingerprint, find_exact, search_pages, find_by_fingerprint,
}
use tamga_python.Client.Machines.Activation.{Outcome-cases}

find_exact-has_fingerprint :
    (fingerprint : Str) (items : List Machine) (machine : Machine)
    → find_exact fingerprint items ≡ some machine
    → has_fingerprint fingerprint machine ≡ true
unfolding find_exact
find_exact-has_fingerprint fingerprint [] machine h = absurd (cc h)
find_exact-has_fingerprint fingerprint (m ∷ items) machine h =
    elim (Bool-cases (has_fingerprint fingerprint m)) [
      | inl e ↦ let same : m ≡ machine = cc (rw e at h) in rw same at e
      | inr e ↦ find_exact-has_fingerprint fingerprint items machine (rw e at h)
    ]

module _ (server : Server) (fingerprint license_id : Str) where
  -- One page of this license's machines, asked for with the fingerprint.
  abbrev pub IsListing : Call → Type 0
  IsListing c = (number : ℕ) × (c ≡ list_call number fingerprint license_id)

  -- What the latest call, a read, raised.
  abbrev pub LastRaised : List Call → Raised → Type 0
  LastRaised (get_call id ∷ before) x = server.get before id ≡ raised x
  LastRaised (list_call number f l ∷ before) x = server.list before number f l ≡ raised x
  LastRaised _ x = ⊥

  -- How a search may fail: with what its latest call raised, or over a blank fingerprint.
  abbrev pub Fails : List Call → Raised → Type 0
  Fails log x =
      LastRaised log x ⊎ ((x ≡ exc value_error) × (is_empty (strip is_space fingerprint) ≡ true))

  -- A search of at most `budget` pages after `log`: it only lists, and finds exact matches.
  pub record Searched (budget : ℕ) (log : List Call) (r : Run (Option Machine)) : Type 0 where
    pub calls : List Call
    pub logged : r.log ≡ calls ++ log
    pub listings : All IsListing calls
    pub few : length calls ≤ budget
    pub exact :
        (machine : Machine)
        → r.outcome ≡ done (some machine)
        → has_fingerprint fingerprint machine ≡ true
    pub no_rollback : (o : _) → r.outcome ≢ over_limit o
    pub fails : (x : Raised) → r.outcome ≡ failed x → Fails r.log x

  one_page :
      (number remaining : ℕ) (log : List Call) (outcome : Ended (Option Machine))
      → ((machine : Machine)
          → outcome ≡ done (some machine)
          → has_fingerprint fingerprint machine ≡ true)
      → ((o : _) → outcome ≢ over_limit o)
      → ((x : Raised)
          → outcome ≡ failed x
          → server.list log number fingerprint license_id ≡ raised x)
      → Searched (suc remaining) log (run outcome (list_call number fingerprint license_id ∷ log))
  one_page number remaining log outcome h k f = record {
    calls = list_call number fingerprint license_id ∷ [];
    logged = refl;
    listings = ((number, refl), tt);
    few = omega arith;
    exact = h;
    no_rollback = k;
    fails = λ x e. inl (f x e);
  }

  later_page :
      (number remaining : ℕ) (log : List Call) (r : Run (Option Machine))
      → Searched remaining (list_call number fingerprint license_id ∷ log) r
      → Searched (suc remaining) log r
  later_page number remaining log r s =
      let call = list_call number fingerprint license_id in
      record {
        calls = s.calls ++ (call ∷ []);
        logged = s.logged ∙ sym (append_assoc s.calls (call ∷ []) log);
        listings = All-append IsListing s.calls (call ∷ []) s.listings ((number, refl), tt);
        few = omega (arith, length-append s.calls (call ∷ []), s.few);
        exact = s.exact;
        no_rollback = s.no_rollback;
        fails = s.fails;
      }

  search_pages-Searched :
      (remaining number : ℕ) (log : List Call)
      → Searched remaining log (search_pages server fingerprint license_id remaining number log)
  unfolding search_pages
  search_pages-Searched zero number log = record {
    calls = [];
    logged = refl;
    listings = tt;
    few = omega arith;
    exact = λ machine h. absurd (cc h);
    no_rollback = λ o h. absurd (cc h);
    fails = λ x h. absurd (cc h);
  }
  search_pages-Searched (suc remaining) number log =
      elim (Outcome-cases (server.list log number fingerprint license_id)) [
        | inl (r, e) ↦
            rw (search_pages, e)
              (one_page number remaining log (failed r) (λ m h. absurd (cc h))
                (λ o h. absurd (cc h)) (λ x h. e ∙ ap raised (cc h)))
        | inr (page, e) ↦ elim (Option-cases (find_exact fingerprint page.items)) [
          | inr (machine, f) ↦
              rw (search_pages, e, f)
                (one_page number remaining log (done (some machine))
                  (λ m h. find_exact-has_fingerprint fingerprint page.items m (f ∙ (cc h)))
                  (λ o h. absurd (cc h)) (λ x h. absurd (cc h)))
          | inl f ↦ elim (Bool-cases (is_empty page.items || not (has_next_page page))) [
            | inl g ↦
                rw (search_pages, e, f, g)
                  (one_page number remaining log (done none) (λ m h. absurd (cc h))
                    (λ o h. absurd (cc h)) (λ x h. absurd (cc h)))
            | inr g ↦
                rw (search_pages, e, f, g)
                  (later_page number remaining log _ (
                    search_pages-Searched remaining (suc number)
                      (list_call number fingerprint license_id ∷ log)))
          ]
        ]
      ]

  -- A search makes at most `max_pages` calls, all of them listings of this license, whatever the
  -- server says of its pages, and a machine that it returns has exactly the fingerprint.
  pub find_by_fingerprint-Searched :
      (max_pages : ℕ) (log : List Call)
      → Searched max_pages log (find_by_fingerprint server log fingerprint license_id max_pages)
  unfolding find_by_fingerprint
  find_by_fingerprint-Searched max_pages log =
      elim (Bool-cases (is_empty (strip is_space fingerprint))) [
        | inl e ↦
            rw (find_by_fingerprint, e)
              (record {
                calls = [];
                logged = refl;
                listings = tt;
                few = omega arith;
                exact = λ machine h. absurd (cc h);
                no_rollback = λ o h. absurd (cc h);
                fails = λ x h. inr (sym (cc h), e);
              })
        | inr e ↦ rw (find_by_fingerprint, e) (search_pages-Searched max_pages 1 log)
      ]

  -- The pages from `number` on lead to the machine within `budget` pages: each page before its own
  -- has other machines and a page after it, and no exact match.
  pub data Leads (machine : Machine) : ℕ → ℕ → List Call → Type 0 where
    here :
        {budget number : ℕ} {log : List Call} (page : OffsetPage)
        → server.list log number fingerprint license_id ≡ returned page
        → find_exact fingerprint page.items ≡ some machine
        → Leads machine (suc budget) number log
    after :
        {budget number : ℕ} {log : List Call} (page : OffsetPage)
        → server.list log number fingerprint license_id ≡ returned page
        → find_exact fingerprint page.items ≡ none
        → is_empty page.items ≡ false
        → has_next_page page ≡ true
        → Leads machine budget (suc number) (list_call number fingerprint license_id ∷ log)
        → Leads machine (suc budget) number log

  search_pages-Leads :
      (machine : Machine) (budget number : ℕ) (log : List Call)
      → Leads machine budget number log
      → (search_pages server fingerprint license_id budget number log).outcome ≡ done (some machine)
  unfolding search_pages
  search_pages-Leads machine _ number log (here page e f) = rw (search_pages, e, f) refl
  search_pages-Leads machine _ number log (after page e f g k later) =
      rw (search_pages, e, f, g, k) (search_pages-Leads machine _ (suc number) _ later)

  -- A machine to which the pages lead within the budget is found, for any fingerprint that is not
  -- blank.
  pub find_by_fingerprint-Leads :
      (machine : Machine) (max_pages : ℕ) (log : List Call)
      → is_empty (strip is_space fingerprint) ≡ false
      → Leads machine max_pages 1 log
      → (find_by_fingerprint server log fingerprint license_id max_pages).outcome
        ≡ done (some machine)
  unfolding find_by_fingerprint
  find_by_fingerprint-Leads machine max_pages log e leads =
      rw (find_by_fingerprint, e) (search_pages-Leads machine max_pages 1 log leads)
