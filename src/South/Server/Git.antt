-- ===== src/South/Server/Git.antt =====
-- internal/south/handler.go: which git requests the mux of NewServer gives to the proxy.
use forgery.Base.{
  Str, text, ◌≡◌, refl, sym, ap, subst, ◌∙◌, inl, inr, true, false, some, ◌∷◌, ◌++◌, has_prefix,
  has_prefix-rest, cut_prefix, cut, Bool-cases, guard-some,
}
use forgery.Mux.{Routed, handled, Table, IsDirect, IsServeMux}
use forgery.Proxy.{match_git_path, valid_repo_name, match_git_endpoint}
use forgery.South.Server.{Endpoint, proxied, new_server, IsServicePath, new_server_lem}

below_actions :
    (t owner repo : Str)
    → match_git_path (text "/api/actions/" ++ t) ≡ some (owner, repo)
    → (owner ≡ text "api") × (repo ≡ text "actions")
unfolding match_git_path cut_prefix cut valid_repo_name
below_actions t owner repo h =
    let (passed, e) =
      guard-some (match_git_endpoint (b'/' ∷ t)) (some (text "api", text "actions")) (owner, repo)
        h in
    (cc, cc)

module _ (clean : Str → Str) (mux : Table Endpoint → Str → Routed Endpoint)
    (serves : IsServeMux clean mux) (service_path : Str) (service : IsServicePath service_path)
    (path : Str) (direct : IsDirect clean (new_server service_path) path) where
  -- A git request that the mux does not redirect reaches the proxy, if its path is not below the service's
  -- and it is for another repository than actions of the owner api.
  pub match_git_path-proxied :
      (owner repo : Str)
      → has_prefix path (text "/") ≡ true
      → match_git_path path ≡ some (owner, repo)
      → has_prefix path service_path ≡ false
      → ¬ ((owner ≡ text "api") × (repo ≡ text "actions"))
      → mux (new_server service_path) path ≡ handled proxied
  match_git_path-proxied owner repo root git other free =
      elim (Bool-cases (has_prefix path (text "/api/actions/"))) [
        | inl actions ↦
            let (t, e) = has_prefix-rest path (text "/api/actions/") actions in
            absurd (free (below_actions t owner repo (ap match_git_path (sym e) ∙ git)))
        | inr outside ↦
            subst (λ k. mux (new_server service_path) path ≡ handled k) (rw (other, outside) refl)
              (new_server_lem clean mux serves service_path service path direct root)
      ]
