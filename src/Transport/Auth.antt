-- ===== src/Transport/Auth.antt =====
-- What authentication changes of a request.
use mathlib.Core.Path.{subst}
use tamga_python.Prelude.{
  ◌≡◌, ◌≢◌, refl, sym, ◌∙◌, false, some, [], ◌∷◌, ◌++◌, Bool-cases, inl, inr, ◌⊎◌,
}
use tamga_python.Python.Str.{Str, Bytes, codes, str_eq, str_eq_iff, str_eq_self}
use tamga_python.Python.Base64.{b64encode}
use tamga_python.Python.Exc.{Result, ok, >>=-eq-ok}
use tamga_python.Crypto.{encode_utf8}
use tamga_python.Transport.{
  AuthTransport, bearer, basic, license, query_param, Dict, set_item, get_item, user_pass,
  apply_auth,
}

str_eq-ne : (a b : Str) → a ≢ b → str_eq a b ≡ false
str_eq-ne a b h = elim (Bool-cases (str_eq a b)) [
  | inl e ↦ absurd (h ((str_eq_iff a b).0 e))
  | inr e ↦ e
]

pub get_item-set_item : (d : Dict) (k v : Str) → get_item (set_item d k v) k ≡ some v
unfolding get_item set_item
get_item-set_item [] k v = rw (str_eq_self k) refl
get_item-set_item ((j, w) ∷ d) k v = elim (Bool-cases (str_eq j k)) [
  | inl e ↦ rw (e, e) refl
  | inr e ↦ rw (e, e) (get_item-set_item d k v)
]

pub get_item-set_item-other :
    (d : Dict) (k v other : Str) → k ≢ other → get_item (set_item d k v) other ≡ get_item d other
unfolding get_item set_item
get_item-set_item-other [] k v other h = rw (str_eq-ne k other h) refl
get_item-set_item-other ((j, w) ∷ d) k v other h = elim (Bool-cases (str_eq j k)) [
  | inl e ↦ rw (e, str_eq-ne j other (λ q. h (sym ((str_eq_iff j k).0 e) ∙ q))) refl
  | inr e ↦ rw (e, get_item-set_item-other d k v other h) refl
]

-- The dict holds the value under the key, and is as it was under every other key.
pub record Sets (d : Dict) (k v : Str) (d' : Dict) : Type 0 where
  pub held : get_item d' k ≡ some v
  pub kept : (other : Str) → k ≢ other → get_item d' other ≡ get_item d other

set_item-Sets : (d : Dict) (k v : Str) → Sets d k v (set_item d k v)
set_item-Sets d k v = record {
  held = get_item-set_item d k v;
  kept = λ other h. get_item-set_item-other d k v other h;
}

-- The value of the `Authorization` header that carries the credential.
abbrev pub Credential : AuthTransport → Str → Type 0
Credential (bearer token) v = v ≡ codes "Bearer " ++ token
Credential (license key) v = v ≡ codes "License " ++ key
Credential (basic auth) v =
    (pair : Str) × (bytes : Bytes) × (user_pass auth ≡ ok pair)
    × (encode_utf8 pair ≡ ok bytes)
    × (v ≡ codes "Basic " ++ b64encode bytes)
Credential (query_param value param_name) v = ⊥

abbrev pub Authenticates : Dict → Dict → AuthTransport → Dict × Dict → Type 0
Authenticates headers params auth (headers', params') =
    ((v : Str) × Credential auth v
      × Sets headers (codes "Authorization") v headers'
      × (params' ≡ params))
    ⊎ ((value : Str) × (param_name : Str) × (auth ≡ query_param value param_name)
        × (headers' ≡ headers)
        × Sets params param_name value params')

same_request : {p q : Dict × Dict} → ◌≡◌ {A = Result (Dict × Dict)} (ok p) (ok q) → p ≡ q
same_request h = cc h

-- Authentication sets one thing and leaves all else of the request alone: the header with the
-- credential of its transport, or the query parameter.
pub apply_auth-Authenticates :
    (headers params : Dict) (auth : AuthTransport) (request : Dict × Dict)
    → apply_auth headers params auth ≡ ok request
    → Authenticates headers params auth request
unfolding apply_auth
apply_auth-Authenticates headers params (bearer token) request h =
    subst (Authenticates headers params (bearer token)) (same_request h)
      (inl (_, refl, set_item-Sets headers _ _, refl))
apply_auth-Authenticates headers params (license key) request h =
    subst (Authenticates headers params (license key)) (same_request h)
      (inl (_, refl, set_item-Sets headers _ _, refl))
apply_auth-Authenticates headers params (basic auth) request h =
    let (pair, rendered, h1) = >>=-eq-ok (user_pass auth) _ h in
    let (bytes, encoded, h2) = >>=-eq-ok (encode_utf8 pair) _ h1 in
    subst (Authenticates headers params (basic auth)) (same_request h2)
      (inl (_, (pair, bytes, rendered, encoded, refl), set_item-Sets headers _ _, refl))
apply_auth-Authenticates headers params (query_param value param_name) request h =
    subst (Authenticates headers params (query_param value param_name)) (same_request h)
      (inr (value, param_name, refl, refl, set_item-Sets params _ _))
