-- ===== src/Client/Pages.antt =====
-- client.py: lists and their pages, and the calls that all sub-clients make alike.
pub mod Rows
pub mod Walk
mod Tests
use tamga_python.Prelude.{
  ◌≡◌, refl, ℕ, Bool, true, false, Option, none, some, List, [], ◌∷◌, ltb, if◌then◌else◌, length,
}
use tamga_python.Python.Int.{ℤ, pos, ltb_ℤ}
use tamga_python.Python.Str.{Str, codes}
use tamga_python.Python.Json.{Json, obj, Fields, end, field}
use tamga_python.Python.Dumps.{int_text}
use tamga_python.Python.Exc.{Result}
use tamga_python.Transport.{Dict, set_item}
use tamga_python.Models.Reader.{parse_each}
use tamga_python.Client.Request.{Context}
use tamga_python.Client.Endpoint.{Operation, endpoint}
use tamga_python.Client.Session.{Session, return, lift, ◌>>=◌, send_request, send_request_raw}

abbrev pub max_page_size : ℤ
max_page_size = pos 100

pub record Page {ℓ} (A : Type ℓ) : Type ℓ where
  pub items : List A
  pub next_after : Option Str

abbrev pub last_or {ℓ} : {A : Type ℓ} → A → List A → A
last_or a [] = a
last_or a (x ∷ xs) = last_or x xs

-- `_next_after_cursor`, with the id of an item
unfoldable pub next_after_cursor {ℓ} : {A : Type ℓ} → (A → Str) → List A → Option ℤ → Option Str
next_after_cursor id_of [] limit = none
next_after_cursor id_of (x ∷ xs) none = none
next_after_cursor id_of (x ∷ xs) (some limit) =
    if ltb_ℤ (pos (length (x ∷ xs))) limit then none else some (id_of (last_or x xs))

-- limit if limit is not None else MAX_PAGE_SIZE
abbrev pub effective_limit : Option ℤ → ℤ
effective_limit none = max_page_size
effective_limit (some limit) = limit

-- if v is not None: params[k] = v, before the later parameters
abbrev pub with_param : Str → Option Str → Dict → Dict
with_param key none rest = rest
with_param key (some v) rest = (key, v) ∷ rest

-- the parameters of a list that is paged by a cursor
unfoldable pub keyset_params : ℤ → Option Str → Dict
unfolding int_text
keyset_params limit none = (codes "limit", int_text limit) ∷ []
keyset_params limit (some after) =
    (codes "limit", int_text limit) ∷ (codes "page[after]", after) ∷ []

-- if metadata is not None: body["metadata"] = metadata
abbrev pub with_metadata : Option Fields → Fields
with_metadata none = end
with_metadata (some metadata) = field (codes "metadata") (obj metadata) end

module _ (ctx : Context) where
  -- _send_request, for an operation
  unfoldable pub call : Operation → Option Json → Dict → Session Json
  unfolding send_request
  call op body params = send_request ctx (endpoint op).method (endpoint op).path body params false

  -- the items of a list, in order
  unfoldable pub call_items {ℓ} :
      {A : Type ℓ} → Operation → (Json → Result A) → Dict → Session (List A)
  unfolding send_request_raw parse_each
  call_items op parse params = do
    response ← send_request_raw ctx (endpoint op).method (endpoint op).path none params none false
    lift (parse_each parse response.data_member)

  -- the bodies of the `list` methods that page by a cursor
  unfoldable pub keyset_list {ℓ} :
      {A : Type ℓ}
      → Operation
      → (Json → Result A)
      → (A → Str)
      → Option ℤ
      → Option Str
      → Session (Page A)
  unfolding call_items keyset_params next_after_cursor
  keyset_list op parse id_of limit after = do
    items ← call_items op parse (keyset_params (effective_limit limit) after)
    return (record {
      items = items;
      next_after = next_after_cursor id_of items (some (effective_limit limit));
    })
