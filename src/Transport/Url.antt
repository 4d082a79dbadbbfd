-- ===== src/Transport/Url.antt =====
-- The URLs of one host, however it is spelled.
use tamga_python.Prelude.{
  ◌≡◌, refl, sym, ◌∙◌, true, false, [], ◌∷◌, ◌++◌, arith, All, All-append, append_assoc,
}
use tamga_python.Python.Str.{Str, codes, starts_with, remove_prefix, rstrip, strip, is_space}
use tamga_python.Python.Str.Strip.{strip-padded, strip-kept, rstrip-after, rstrip-kept}
use tamga_python.Transport.{is_slash, scheme_of, normalized_host, build_root_url, build_base_url}

-- A host without white space and without slashes, before `slashes`, that does not read as a URL.
pub record IsBareHost (host slashes : Str) : Type 0 where
  pub no_spaces : All (λ c. is_space c ≡ false) host
  pub no_slashes : All (λ c. is_slash c ≡ false) host
  pub only_slashes : All (λ c. is_slash c ≡ true) slashes
  pub no_http : starts_with (host ++ slashes) (codes "http://") ≡ false
  pub no_https : starts_with (host ++ slashes) (codes "https://") ≡ false

slash-kept : (s : Str) → All (λ c. is_slash c ≡ true) s → All (λ c. is_space c ≡ false) s
slash-kept [] h = tt
slash-kept (c ∷ s) (e, h) = (unfold is_slash in unfold is_space in ground arith, slash-kept s h)

module _ (host slashes : Str) (h : IsBareHost host slashes) where
  trimmed : rstrip is_slash (host ++ slashes) ≡ host
  trimmed =
      rstrip-after is_slash host slashes h.only_slashes ∙ rstrip-kept is_slash host h.no_slashes

  host-kept : All (λ c. is_space c ≡ false) (host ++ slashes)
  host-kept =
      All-append (λ c. is_space c ≡ false) host slashes h.no_spaces
        (slash-kept slashes h.only_slashes)

  module _ (before after : Str) (hb : All (λ c. is_space c ≡ true) before)
      (ha : All (λ c. is_space c ≡ true) after) where
    stripped :
        (prefix : Str)
        → All (λ c. is_space c ≡ false) prefix
        → strip is_space (before ++ ((prefix ++ (host ++ slashes)) ++ after))
          ≡ prefix ++ (host ++ slashes)
    stripped prefix hp =
        strip-padded is_space before after (prefix ++ (host ++ slashes)) hb ha
        ∙ strip-kept is_space (prefix ++ (host ++ slashes))
            (All-append (λ c. is_space c ≡ false) prefix (host ++ slashes) hp host-kept)

    -- A host without white space and slashes that does not itself read as a URL, given bare, with
    -- "https://" or with "http://", with any slashes after it and any white space around it, has
    -- one root URL: only an explicit "http://" makes it plain HTTP.
    pub build_root_url-spelled :
        (build_root_url (before ++ ((host ++ slashes) ++ after)) ≡ codes "https://" ++ host)
        × (build_root_url (before ++ ((codes "https://" ++ (host ++ slashes)) ++ after))
            ≡ codes "https://" ++ host)
        × (build_root_url (before ++ ((codes "http://" ++ (host ++ slashes)) ++ after))
            ≡ codes "http://" ++ host)
    unfolding build_root_url scheme_of normalized_host remove_prefix starts_with
    build_root_url-spelled = (
      rw (stripped [] tt, h.no_http, h.no_https, h.no_http, trimmed) refl,
      rw
          (
            stripped (codes "https://")
                (refl, (refl, (refl, (refl, (refl, (refl, (refl, (refl, tt)))))))),
            h.no_http,
            trimmed,
          )
          refl,
      rw
          (
            stripped (codes "http://") (refl, (refl, (refl, (refl, (refl, (refl, (refl, tt))))))),
            trimmed,
          )
          refl,
    )

-- Both URLs of a host and an account share their root.
pub build_base_url-root :
    (host account_id : Str)
    → build_base_url host account_id ≡ build_root_url host ++ (codes "/v1/accounts/" ++ account_id)
unfolding build_base_url build_root_url
build_base_url-root host account_id =
    let clean = strip is_space host in
    sym (
      append_assoc (scheme_of clean) (codes "://" ++ normalized_host clean)
        (codes "/v1/accounts/" ++ account_id))
