-- ===== src/Client/Licenses/Scope.antt =====
-- What a validation sends of its scope.
use tamga_python.Prelude.{
  ◌≡◌, refl, ◌∙◌, Bool-cases, inl, inr, any, All, false, Option, none, some, List, [], ◌∷◌,
  if◌then◌else◌,
}
use tamga_python.Python.Str.{Str, codes, str_eq}
use tamga_python.Python.Json.{Json, str, arr, Fields, get}
use tamga_python.Client.Licenses.{LicenseScope, texts, with_text, with_texts, scope_to_dict}

abbrev text_member : Option Str → Option Json
text_member none = none
text_member (some s) = some (str s)

abbrev texts_member : Option (List Str) → Option Json
texts_member none = none
texts_member (some ss) = some (arr (texts ss))

abbrev or_else : Option Json → Option Json → Option Json
or_else none v = v
or_else (some w) v = some w

get-with_text :
    (key k : Str) (v : Option Str) (rest : Fields)
    → get (with_text key v rest) k
      ≡ or_else (if str_eq key k then text_member v else none) (get rest k)
unfolding with_text get
get-with_text key k none rest = elim (Bool-cases (str_eq key k)) [
  | inl e ↦ rw e refl
  | inr e ↦ rw e refl
]
get-with_text key k (some s) rest = elim (Bool-cases (str_eq key k)) [
  | inl e ↦ rw e refl
  | inr e ↦ rw e refl
]

get-with_texts :
    (key k : Str) (v : Option (List Str)) (rest : Fields)
    → get (with_texts key v rest) k
      ≡ or_else (if str_eq key k then texts_member v else none) (get rest k)
unfolding with_texts get
get-with_texts key k none rest = elim (Bool-cases (str_eq key k)) [
  | inl e ↦ rw e refl
  | inr e ↦ rw e refl
]
get-with_texts key k (some ss) rest = elim (Bool-cases (str_eq key k)) [
  | inl e ↦ rw e refl
  | inr e ↦ rw e refl
]

or_else-none : (v : Option Json) → or_else v none ≡ v
or_else-none none = refl
or_else-none (some v) = refl

-- The member of a scope under a key.
abbrev looked_up : LicenseScope → Str → Option Json
looked_up scope k =
    or_else (if str_eq (codes "product") k then text_member scope.product else none) (
      or_else (if str_eq (codes "policy") k then text_member scope.policy else none) (
        or_else (if str_eq (codes "user") k then text_member scope.user else none) (
          or_else (if str_eq (codes "environment") k then text_member scope.environment else none) (
            or_else
              (if str_eq (codes "entitlements") k then texts_member scope.entitlements else none)
              (or_else
                (if str_eq (codes "fingerprint") k then text_member scope.fingerprint else none)
                none)))))

get-scope_to_dict :
    (scope : LicenseScope) (k : Str) → get (scope_to_dict scope) k ≡ looked_up scope k
unfolding scope_to_dict get
get-scope_to_dict scope k = simp (get-with_text, get-with_texts) refl

abbrev pub scope_keys : List Str
scope_keys =
    codes "product"
    ∷ codes "policy"
    ∷ codes "user"
    ∷ codes "environment"
    ∷ codes "entitlements"
    ∷ codes "fingerprint"
    ∷ []

-- What a scope is sent as: each member that the server takes, where it is given, and neither of the
-- two that the server refuses.
pub record Sent (scope : LicenseScope) (fields : Fields) : Type 0 where
  pub product : get fields (codes "product") ≡ text_member scope.product
  pub policy : get fields (codes "policy") ≡ text_member scope.policy
  pub user : get fields (codes "user") ≡ text_member scope.user
  pub environment : get fields (codes "environment") ≡ text_member scope.environment
  pub entitlements : get fields (codes "entitlements") ≡ texts_member scope.entitlements
  pub fingerprint : get fields (codes "fingerprint") ≡ text_member scope.fingerprint
  pub others : (k : Str) → any (λ key. str_eq key k) scope_keys ≡ false → get fields k ≡ none

absent :
    (k : Str) (keys : List Str)
    → any (λ key. str_eq key k) keys ≡ false
    → All (λ key. str_eq key k ≡ false) keys
absent k [] h = tt
absent k (key ∷ keys) h = elim (Bool-cases (str_eq key k)) [
  | inl e ↦ absurd (cc (rw e at h))
  | inr e ↦ (e, absent k keys (rw e at h))
]

looked_up-none :
    (scope : LicenseScope) (k : Str)
    → any (λ key. str_eq key k) scope_keys ≡ false
    → looked_up scope k ≡ none
looked_up-none scope k h =
    let (a, (b, (c, (d, (e, (f, u)))))) = absent k scope_keys h in rw (a, b, c, d, e, f) refl

-- A validation's scope is sent whole and as it is: under each of the six keys that the server takes
-- there is the value that the caller gave, and nothing where none was given. No other key is sent,
-- and so neither of `version` and `checksum`, for which the server refuses the whole call.
pub scope_to_dict-Sent : (scope : LicenseScope) → Sent scope (scope_to_dict scope)
unfolding str_eq
scope_to_dict-Sent scope = record {
  product = get-scope_to_dict scope (codes "product") ∙ or_else-none (text_member scope.product);
  policy = get-scope_to_dict scope (codes "policy") ∙ or_else-none (text_member scope.policy);
  user = get-scope_to_dict scope (codes "user") ∙ or_else-none (text_member scope.user);
  environment =
      get-scope_to_dict scope (codes "environment") ∙ or_else-none (text_member scope.environment);
  entitlements =
      get-scope_to_dict scope (codes "entitlements")
      ∙ or_else-none (texts_member scope.entitlements);
  fingerprint =
      get-scope_to_dict scope (codes "fingerprint") ∙ or_else-none (text_member scope.fingerprint);
  others = λ k h. get-scope_to_dict scope k ∙ looked_up-none scope k h;
}
