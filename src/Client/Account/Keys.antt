-- ===== src/Client/Account/Keys.antt =====
-- The keys that the server lists, as the set that offline files are checked against.
use mathlib.Core.List.{Memᴰ}
use mathlib.Core.Path.{subst}
use tamga_python.Prelude.{
  ◌≡◌, refl, ap, sym, ◌∙◌, ◌⊎◌, inl, inr, Bool, false, Option, none, List, [], ◌∷◌,
}
use tamga_python.Python.Str.{Str, Bytes}
use tamga_python.Python.Json.{Json, Items, nil, cons}
use tamga_python.Python.Exc.{Result, ok, err, >>=-eq-ok, value_of_ok}
use tamga_python.Transport.{TamgaResponse, Outcome, returned, raised}
use tamga_python.Models.SigningKey.{SigningKey}
use tamga_python.Models.Reader.{each_of, parse_items, parse_each}
use tamga_python.Models.Resources.{parse_signing_key_resource}
use tamga_python.Checkout.KeySet.{SigningKeySet, resolve_signing_key}
use tamga_python.Checkout.KeySet.Resolve.{Verifies, resolve_signing_key_sound}
use tamga_python.Client.Request.{Log, Context}
use tamga_python.Client.Session.{return, lift, proceed, send_request_raw}
use tamga_python.Client.Endpoint.{Operation, endpoint}
use tamga_python.Client.Pages.{call_items}
use tamga_python.Client.Account.{list_signing_keys, signing_key_set}

abbrev pub InItems : Json → Items → Type 0
InItems v nil = ⊥
InItems v (cons w items) = (w ≡ v) ⊎ InItems v items

no_member {ℓ} : {A : Type ℓ} (a : A) → ¬ Memᴰ a []
no_member a m = elim m [ ]

-- An entry of a list stands at its head or in its rest.
head_or_rest {ℓ} :
    {A : Type ℓ} (a b : A) (rest : List A) → Memᴰ a (b ∷ rest) → (a ≡ b) ⊎ Memᴰ a rest
head_or_rest a b rest (Memᴰ.head e) = inl e
head_or_rest a b rest (Memᴰ.tail m) = inr m

-- What a list is parsed from holds an item for each of its entries.
parse_items-In {ℓ} :
    {A : Type ℓ} (parse : Json → Result A) (items : Items) (found : List A) (a : A)
    → parse_items parse items ≡ ok found
    → Memᴰ a found
    → (v : Json) × InItems v items × (parse v ≡ ok a)
unfolding parse_items
parse_items-In parse nil found a h m = absurd (no_member a (subst (Memᴰ a) (sym (value_of_ok h)) m))
parse_items-In parse (cons v items) found a h m =
    let (b, e, h1) = >>=-eq-ok (parse v) _ h in
    let (rest, f, h2) = >>=-eq-ok (parse_items parse items) _ h1 in
    elim (head_or_rest a b rest (subst (Memᴰ a) (sym (value_of_ok h2)) m)) [
      | inl same ↦ (v, inl refl, e ∙ ap ok (sym same))
      | inr m' ↦ let (w, here, g) = parse_items-In parse items rest a f m' in (w, inr here, g)
    ]

value_of_returned {ℓ} :
    {A : Type ℓ} {a b : A} → ◌≡◌ {A = Outcome A} (returned a) (returned b) → a ≡ b
value_of_returned h = cc h

of_lift {ℓ} :
    {A : Type ℓ} (r : Result A) (a : A) (log : Log) → (lift r log).0 ≡ returned a → r ≡ ok a
of_lift (ok b) a log h = ap ok (value_of_returned h)
of_lift (err x) a log h = absurd (cc h)

module _ (ctx : Context) where
  -- The key is read from an item of the list that an answer to the call holds.
  pub record Listed (log : Log) (key : SigningKey) : Type 0 where
    pub response : TamgaResponse
    pub answer :
        (send_request_raw ctx
          (endpoint Operation.list_signing_keys).method
          (endpoint Operation.list_signing_keys).path
          none
          []
          none
          false
          log).0
        ≡ returned response
    pub items : Items
    pub listed : each_of response.data_member ≡ ok items
    pub item : Json
    pub is_item : InItems item items
    pub read : parse_signing_key_resource ctx.reader item ≡ ok key

  parsed_from :
      (o : Outcome TamgaResponse × Log) (keys : List SigningKey)
      → (proceed o (λ response.
          lift (parse_each (parse_signing_key_resource ctx.reader) response.data_member))).0
        ≡ returned keys
      → (response : TamgaResponse) × (o.0 ≡ returned response)
        × (parse_each (parse_signing_key_resource ctx.reader) response.data_member ≡ ok keys)
  parsed_from (returned response, log) keys h = (response, refl, of_lift _ keys log h)
  parsed_from (raised x, log) keys h = absurd (cc h)

  keys_of_set :
      (o : Outcome (List SigningKey) × Log) (key_set : SigningKeySet)
      → (proceed {B = SigningKeySet} o (λ keys. return (record { keys = keys }))).0
        ≡ returned key_set
      → o.0 ≡ returned key_set.keys
  keys_of_set (returned keys, log) key_set h =
      ap (λ (s : SigningKeySet). returned s.keys) (value_of_returned h)
  keys_of_set (raised x, log) key_set h = absurd (cc h)

  -- A file that is accepted under the keys fetched from the account is checked under a key that an
  -- answer of the server to the listing of the keys holds: one of its items, read as a key, whose 32
  -- bytes of Ed25519 pass the file's check.
  pub signing_key_set-Listed :
      (sha256 : Bytes → Bytes) (verify : Bytes → Result Bool)
      (unverified_kid : Unit {0} → Result (Option Str)) (log : Log) (key_set : SigningKeySet)
      (key : SigningKey) (bs : Bytes)
      → (signing_key_set ctx log).0 ≡ returned key_set
      → resolve_signing_key sha256 key_set verify unverified_kid ≡ ok (key, bs)
      → Listed log key × Verifies verify key bs
  unfolding signing_key_set list_signing_keys call_items parse_each
  signing_key_set-Listed sha256 verify unverified_kid log key_set key bs h r =
      let (m, v) = resolve_signing_key_sound sha256 key_set verify unverified_kid key bs r in
      let (response, answer, parsed) =
        parsed_from
          (send_request_raw ctx (endpoint Operation.list_signing_keys).method
            (endpoint Operation.list_signing_keys).path none [] none false log)
          key_set.keys (keys_of_set (list_signing_keys ctx log) key_set h) in
      let (items, listed, rest) = >>=-eq-ok (each_of response.data_member) _ parsed in
      let (item, is_item, read) =
        parse_items-In (parse_signing_key_resource ctx.reader) items key_set.keys key rest m in
      (
        record {
          response = response;
          answer = answer;
          items = items;
          listed = listed;
          item = item;
          is_item = is_item;
          read = read;
        },
        v,
      )
