-- ===== src/Client/Request/Headers.antt =====
-- What an assembled request carries: its headers, and the credential in its place.
use mathlib.Core.Path.{subst}
use tamga_python.Prelude.{
  ◌≡◌, refl, ◌∙◌, ◌⊎◌, inl, inr, Bool, true, false, Option, none, some, [], ◌∷◌, is_empty,
  if◌then◌else◌,
}
use tamga_python.Python.Str.{Str, codes, str_eq, str_eq-apart}
use tamga_python.Python.Json.{Json}
use tamga_python.Python.Exc.{ok, >>=-eq-ok, value_of_ok}
use tamga_python.Transport.{
  AuthTransport, query_param, Dict, get_item, set_item, sanitize_tamga_version,
}
use tamga_python.Transport.Auth.{Credential, Authenticates, Sets, apply_auth-Authenticates}
use tamga_python.Transport.Version.{IsVersion, sanitize_tamga_version-IsVersion}
use tamga_python.Client.Request.{
  HttpRequest, Context, with_user_agent, effective_auth, authenticated, base_headers, assemble,
}

abbrev sent_agent : Option Str → Option Str
sent_agent none = none
sent_agent (some agent) = if is_empty agent then none else some agent

abbrev content_type : Bool → Option Str
content_type is_quick_validate =
    if is_quick_validate then none else some (codes "application/vnd.api+json")

-- The headers that every request has, whatever else it has.
pub record Plain (version : Str) (is_quick_validate : Bool) (agent : Option Str) (headers : Dict)
    : Type 0 where
  pub version_held : get_item headers (codes "Tamga-Version") ≡ some version
  pub type_held : get_item headers (codes "Content-Type") ≡ content_type is_quick_validate
  pub agent_held : get_item headers (codes "User-Agent") ≡ sent_agent agent

with_user_agent-Plain :
    (version : Str) (is_quick_validate : Bool) (agent : Option Str)
    → Plain version is_quick_validate agent
        (with_user_agent agent (base_headers version is_quick_validate))
      × (get_item
            (with_user_agent agent (base_headers version is_quick_validate))
            (codes "Authorization")
          ≡ none)
unfolding with_user_agent get_item set_item str_eq
with_user_agent-Plain version true none =
    (record { version_held = refl; type_held = refl; agent_held = refl }, refl)
with_user_agent-Plain version false none =
    (record { version_held = refl; type_held = refl; agent_held = refl }, refl)
with_user_agent-Plain version true (some []) =
    (record { version_held = refl; type_held = refl; agent_held = refl }, refl)
with_user_agent-Plain version false (some []) =
    (record { version_held = refl; type_held = refl; agent_held = refl }, refl)
with_user_agent-Plain version true (some (c ∷ agent)) =
    (record { version_held = refl; type_held = refl; agent_held = refl }, refl)
with_user_agent-Plain version false (some (c ∷ agent)) =
    (record { version_held = refl; type_held = refl; agent_held = refl }, refl)

-- Where the credential of a request is: in the header, in a query parameter, or nowhere.
abbrev pub Placed : Option AuthTransport → Dict → Dict → Dict → Type 0
Placed none params headers' params' =
    (get_item headers' (codes "Authorization") ≡ none) × (params' ≡ params)
Placed (some auth) params headers' params' =
    ((v : Str) × Credential auth v
      × (get_item headers' (codes "Authorization") ≡ some v)
      × (params' ≡ params))
    ⊎ ((value : Str) × (name : Str) × (auth ≡ query_param value name)
        × (get_item headers' (codes "Authorization") ≡ none)
        × Sets params name value params')

Sets-Plain :
    (version : Str) (is_quick_validate : Bool) (agent : Option Str) (headers headers' : Dict)
    (v : Str)
    → Plain version is_quick_validate agent headers
    → Sets headers (codes "Authorization") v headers'
    → Plain version is_quick_validate agent headers'
unfolding str_eq
Sets-Plain version is_quick_validate agent headers headers' v p s = record {
  version_held =
      s.kept (codes "Tamga-Version")
        (str_eq-apart (codes "Authorization") (codes "Tamga-Version") refl)
      ∙ p.version_held;
  type_held =
      s.kept (codes "Content-Type")
        (str_eq-apart (codes "Authorization") (codes "Content-Type") refl)
      ∙ p.type_held;
  agent_held =
      s.kept (codes "User-Agent") (str_eq-apart (codes "Authorization") (codes "User-Agent") refl)
      ∙ p.agent_held;
}

module _ (version : Str) (is_quick_validate : Bool) (agent : Option Str) (headers params : Dict)
    (p : Plain version is_quick_validate agent headers)
    (bare : get_item headers (codes "Authorization") ≡ none) where
  abbrev Carried : Option AuthTransport → Dict × Dict → Type 0
  Carried auth (headers', params') =
      Plain version is_quick_validate agent headers' × Placed auth params headers' params'

  placed :
      (auth : AuthTransport) (request : Dict × Dict)
      → Authenticates headers params auth request
      → Carried (some auth) request
  placed auth (headers', params') (inl (v, c, s, same)) =
      (Sets-Plain version is_quick_validate agent headers headers' v p s, inl (v, c, s.held, same))
  placed auth (headers', params') (inr (value, name, is_query, same, s)) =
      (rw same p, inr (value, name, is_query, rw same bare, s))

  authenticated-Carried :
      (auth : Option AuthTransport) (request : Dict × Dict)
      → authenticated auth headers params ≡ ok request
      → Carried auth request
  unfolding authenticated
  authenticated-Carried none request h =
      subst (λ (r : Dict × Dict). Carried none r) (value_of_ok h) (p, (bare, refl))
  authenticated-Carried (some auth) request h =
      placed auth request (apply_auth-Authenticates headers params auth request h)

module _ (ctx : Context) (method path : Str) (body : Option Json) (params : Dict)
    (auth_override : Option AuthTransport) (is_quick_validate : Bool) where
  pub record Carries (request : HttpRequest) : Type 0 where
    pub same_method : request.method ≡ method
    pub same_target : request.target ≡ path
    pub same_body : request.body ≡ body
    pub version : Str
    pub is_version : IsVersion ctx.isalnum version
    pub plain : Plain version is_quick_validate ctx.config.user_agent request.headers
    pub credential :
        Placed
          (effective_auth auth_override ctx.config.default_auth)
          params
          request.headers
          request.params

  -- A request that is assembled has the given method, path and body, a version that the server
  -- accepts, the content type unless it is a quick validation, the user agent where one is
  -- configured, and the credential, of the override or else of the configuration, in the place of
  -- its transport and nowhere else.
  pub assemble-Carries :
      (request : HttpRequest)
      → assemble ctx method path body params auth_override is_quick_validate ≡ ok request
      → Carries request
  unfolding assemble
  assemble-Carries request h =
      let (version, sanitized, h1) =
        >>=-eq-ok (sanitize_tamga_version ctx.isalnum ctx.config.api_version) _ h in
      let headers =
        with_user_agent ctx.config.user_agent (base_headers version is_quick_validate) in
      let (sent, authentic, h2) =
        >>=-eq-ok
          (authenticated (effective_auth auth_override ctx.config.default_auth) headers params) _
          h1 in
      let (p, bare) = with_user_agent-Plain version is_quick_validate ctx.config.user_agent in
      let (plain, credential) =
        authenticated-Carried version is_quick_validate ctx.config.user_agent headers params p bare
          (effective_auth auth_override ctx.config.default_auth) sent authentic in
      subst (λ (r : HttpRequest). Carries r) (value_of_ok h2)
        (record {
          same_method = refl;
          same_target = refl;
          same_body = refl;
          version = version;
          is_version =
              (sanitize_tamga_version-IsVersion ctx.isalnum ctx.config.api_version version
                sanitized).0;
          plain = plain;
          credential = credential;
        })
