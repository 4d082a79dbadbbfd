-- ===== src/Client/Pages/Walk.antt =====
-- The pages of a list that is paged by a cursor, walked by feeding `next_after` back as `after`.
use mathlib.Core.Path.{subst}
use tamga_python.Prelude.{
  All-at, append_assoc, ◌≡◌, refl, sym, ap, ◌∙◌, ℕ, zero, suc, ◌≤◌, ◌<◌, inl, inr, true, false,
  Option, none, some, List, [], ◌∷◌, ◌++◌, arith, length, take, drop, length-take, length-drop, All,
  Bool-cases,
}
use tamga_python.Python.Int.{ℤ, pos, negsuc, ltb_ℤ, ◌≤ℤ◌, pos_part}
use tamga_python.Python.Str.{Str}
use tamga_python.Python.Json.{Json}
use tamga_python.Python.Exc.{Result, runtime_error}
use tamga_python.Transport.{Outcome, returned, raised, exc}
use tamga_python.Client.Request.{Log, Context}
use tamga_python.Client.Endpoint.{Operation}
use tamga_python.Client.Session.{Session, return, raise, proceed, ◌>>=◌}
use tamga_python.Client.Pages.{
  Page, last_or, next_after_cursor, effective_limit, keyset_params, call_items, keyset_list,
  max_page_size,
}
use tamga_python.Client.Pages.Rows.{
  Keyed, after_row, after_row-append, clamped, clamped-cut, clamped-ge, clamped-kept, rows_after,
  split-last, take-drop, take-nil, take-short,
}

proceed-returned {ℓ κ} :
    {A : Type ℓ} {B : Type κ} (o : Outcome A × Log) (a : A) (f : A → Session B)
    → o.0 ≡ returned a
    → proceed o f ≡ f a o.1
proceed-returned (returned b, log) a f h = let e : b ≡ a = cc h in ap (λ c. f c log) e
proceed-returned (raised x, log) a f h = absurd (cc h)

pred_of : (n : ℕ) → 1 ≤ n → (m : ℕ) × (n ≡ suc m)
pred_of zero h = absurd (omega (arith, h))
pred_of (suc m) h = (m, refl)

ltb_ℤ-lt : (n : ℕ) (z : ℤ) → ltb_ℤ (pos n) z ≡ true → n < pos_part z
ltb_ℤ-lt n z h = ground arith

lt-ltb_ℤ : (n : ℕ) (z : ℤ) → n < pos_part z → ltb_ℤ (pos n) z ≡ true
lt-ltb_ℤ n (pos k) h = ground arith
lt-ltb_ℤ n (negsuc k) h = absurd (omega (arith, h))

module _ {ℓ} {A : Type ℓ} (ctx : Context) (op : Operation) (parse : Json → Result A)
    (id_of : A → Str) (limit : Option ℤ) where
  abbrev page_size : ℕ
  page_size = clamped (effective_limit limit)

  -- What a caller does with a page: keep its items, and go on from its cursor while there is one.
  abbrev go_on : (Option Str → Session (List A)) → Page A → Session (List A)
  go_on rest page = elim (page.next_after) [
    | none ↦ return page.items
    | some cursor ↦ do more ← rest (some cursor); return (page.items ++ more)
  ]

  -- The walk of all pages, with a bound on their number.
  unfoldable pub walk : ℕ → Option Str → Session (List A)
  unfolding keyset_list
  walk zero after = raise (exc runtime_error)
  walk (suc fuel) after = keyset_list ctx op parse id_of limit after >>= go_on (walk fuel)

  -- The call with that cursor answers with the rows after it, cut at the page size.
  abbrev pub Answers : List A → Option Str → Type ℓ
  Answers rows after =
      (log : Log)
      → (call_items ctx op parse (keyset_params (effective_limit limit) after) log).0
        ≡ returned (take page_size (rows_after id_of rows after))

  -- The server pages the rows by their ids: with no cursor, and with the id of each row.
  abbrev pub Serves : List A → Type ℓ
  Serves rows = Answers rows none × All (λ x. Answers rows (some (id_of x))) rows

  abbrev page_of : List A → Page A
  page_of items = record {
    items = items;
    next_after = next_after_cursor id_of items (some (effective_limit limit));
  }

  walk-step :
      (fuel : ℕ) (after : Option Str) (rows : List A) (log : Log)
      → Answers rows after
      → (log' : Log) × (walk (suc fuel) after log
          ≡ go_on (walk fuel) (page_of (take page_size (rows_after id_of rows after))) log')
  unfolding walk keyset_list
  walk-step fuel after rows log h =
      let o = call_items ctx op parse (keyset_params (effective_limit limit) after) log in
      (
        o.1,
        rw
            (proceed-returned o (take page_size (rows_after id_of rows after))
              (λ items. return (page_of items)) (h log))
            refl,
      )

  module _ (rows : List A) (keyed : Keyed id_of rows) (serves : Serves rows)
      (in_range : effective_limit limit ≤ℤ max_page_size) where
    -- The rest of the walk gives the rest of the rows.
    abbrev Rest : List A → Option Str → ℕ → Type ℓ
    Rest rest after fuel = (log : Log) → (walk fuel after log).0 ≡ returned rest

    last_page :
        (x : A) (xs : List A) (m fuel : ℕ) (log : Log)
        → page_size ≡ suc m
        → ltb_ℤ (pos (length (x ∷ take m xs))) (effective_limit limit) ≡ true
        → (go_on (walk fuel) (page_of (x ∷ take m xs)) log).0 ≡ returned (x ∷ xs)
    unfolding next_after_cursor
    last_page x xs m fuel log size short =
        let fits : pos_part (effective_limit limit) ≤ page_size =
          clamped-kept (effective_limit limit) in_range in
        let all : take (suc m) (x ∷ xs) ≡ x ∷ xs = take-short id_of (suc m) (x ∷ xs) (
          omega
            (arith, size, fits, ltb_ℤ-lt (length (x ∷ take m xs)) (effective_limit limit) short)) in
        rw short (ap returned all)

    next_page :
        (x : A) (xs : List A) (m fuel : ℕ) (log : Log)
        → page_size ≡ suc m
        → ltb_ℤ (pos (length (x ∷ take m xs))) (effective_limit limit) ≡ false
        → Rest (drop m xs) (some (id_of (last_or x (take m xs)))) fuel
        → (go_on (walk fuel) (page_of (x ∷ take m xs)) log).0 ≡ returned (x ∷ xs)
    unfolding next_after_cursor
    next_page x xs m fuel log size long rest =
        let cursor = some (id_of (last_or x (take m xs))) in
        let whole : (x ∷ take m xs) ++ drop m xs ≡ x ∷ xs = take-drop id_of (suc m) (x ∷ xs) in
        rw
          (
            long,
            proceed-returned (walk fuel cursor log) (drop m xs)
                (λ more. return ((x ∷ take m xs) ++ more)) (rest log),
          )
          (ap returned whole)

    -- The walk from a cursor, with the rows that it has passed and the rows that are left.
    walk-Rest :
        (fuel : ℕ) (after : Option Str) (done rest : List A)
        → rows ≡ done ++ rest
        → rows_after id_of rows after ≡ rest
        → Answers rows after
        → length rest < fuel
        → Rest rest after fuel
    unfolding next_after_cursor
    walk-Rest zero after done rest split here answers h log = absurd (omega (arith, h))
    walk-Rest (suc fuel) after done [] split here answers h log =
        let (log', e) = walk-step fuel after rows log answers in
        let empty : take page_size (rows_after id_of rows after) ≡ [] =
          ap (take page_size) here ∙ take-nil id_of page_size in
        rw (e, empty) refl
    walk-Rest (suc fuel) after done (x ∷ xs) split here answers h log =
        let (log', e) = walk-step fuel after rows log answers in
        let (m, size) = pred_of page_size (clamped-ge (effective_limit limit)) in
        let (init, cut) = split-last id_of x xs m in
        let last = last_or x (take m xs) in
        let parted : rows ≡ (done ++ init) ++ last ∷ drop m xs =
          split ∙ ap (λ r. done ++ r) cut ∙ sym (append_assoc done init (last ∷ drop m xs)) in
        let page : take page_size (rows_after id_of rows after) ≡ x ∷ take m xs =
          rw (here, size) refl in
        rw (e, page)
          (elim (Bool-cases (ltb_ℤ (pos (length (x ∷ take m xs))) (effective_limit limit))) [
            | inl short ↦ last_page x xs m fuel log' size short
            | inr long ↦ next_page x xs m fuel log' size long (
                walk-Rest fuel (some (id_of last)) ((done ++ init) ++ last ∷ []) (drop m xs)
                  (parted ∙ sym (append_assoc (done ++ init) (last ∷ []) (drop m xs)))
                  (ap (after_row id_of (id_of last)) parted
                    ∙ after_row-append id_of (done ++ init) last (drop m xs)
                        (subst (Keyed id_of) parted keyed))
                  (All-at (λ r. Answers rows (some (id_of r))) (done ++ init) last (drop m xs)
                    (subst (All (λ r. Answers rows (some (id_of r)))) parted serves.1))
                  (omega (arith, h, length-drop m xs)))
          ])

    -- Every row comes once and in order, whatever the limit is, up to the maximum of the server's
    -- page size: a walk from the first page, which follows the cursor while there is one, ends after
    -- at most one page more than there are rows, and its items are the rows. The server is taken to
    -- page the rows, whose ids differ, by the id of the last row seen.
    pub walk-rows : (log : Log) → (walk (suc (length rows)) none log).0 ≡ returned rows
    walk-rows log = walk-Rest (suc (length rows)) none [] rows refl refl serves.0 (omega arith) log

  last_when_short :
      (items : List A)
      → length items < pos_part (effective_limit limit)
      → next_after_cursor id_of items (some (effective_limit limit)) ≡ none
  unfolding next_after_cursor
  last_when_short [] h = refl
  last_when_short (x ∷ xs) h = rw (lt-ltb_ℤ (length (x ∷ xs)) (effective_limit limit) h) refl

  -- With a limit above the maximum of the server's page size, a walk stops at its first page: the
  -- rows after the first hundred are lost.
  pub walk-cut :
      (rows : List A)
      → Answers rows none
      → 100 < pos_part (effective_limit limit)
      → (fuel : ℕ) (log : Log) → (walk (suc fuel) none log).0 ≡ returned (take 100 rows)
  walk-cut rows answers h fuel log =
      let (log', e) = walk-step fuel none rows log answers in
      let size : page_size ≡ 100 = clamped-cut (effective_limit limit) h in
      rw (e, size, last_when_short (take 100 rows) (omega (arith, h, length-take 100 rows))) refl
