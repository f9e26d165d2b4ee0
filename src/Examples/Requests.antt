-- ===== src/Examples/Requests.antt =====
-- Requests to the proxy.
use forgery.Base.{
  Str, text, ◌≡◌, refl, Bool, true, false, ◌==◌, if◌then◌else◌, some, none, ◌∷◌, ◌++◌, lookup, cut,
  cut_prefix, trim_space, str_eq,
}
use forgery.North.{InstanceEntry, resolve, only_instance}
use forgery.Proxy.{
  Target, is_proxied_path, proxy_token, serve_http, match_git_path, match_git_endpoint,
  valid_repo_name,
}
use forgery.Proxy.Paths.{match_git_path-clone_url}
use forgery.Proxy.Answers.{IsWeb}
use forgery.Proxy.Routes.{Owns, serve_http-forward}
use forgery.Config.{Instance}
use forgery.Registry.{lookup_token}
use forgery.Examples.Fixtures.{resolver, instance_one, world}

match_git_path-clone_url_example :
    match_git_path
      (b'/' ∷ (text "o" ++ b'/' ∷ ((text "r" ++ text ".git") ++ b'/' ∷ text "info/refs")))
    ≡ some (text "o", text "r")
unfolding valid_repo_name match_git_endpoint
match_git_path-clone_url_example =
    match_git_path-clone_url (text "o") (text "r") (text "info/refs") refl refl refl

abbrev target : Target
target = record { scheme = text "https"; host = text "one" }

serve_http-forward_example :
    (is_proxied_path (text "/api/v1/repos/o/r") ≡ true)
    × ((token : Str) × (name : Str) × (e : InstanceEntry) × (proxy_token
            (λ s. none)
            (text "Bearer t0")
          ≡ some token)
        × Owns resolver 200 world token name
        × ((resolve name resolver ≡ some e)
            × (e.inst ≡ instance_one)
            × (some target ≡ some target)
            × IsWeb target))
unfolding serve_http lookup_token lookup cut cut_prefix trim_space only_instance
serve_http-forward_example =
    serve_http-forward (λ s. none) (λ s. some target) resolver 200 (text "/api/v1/repos/o/r")
      (text "Bearer t0") world instance_one target refl

abbrev insecure : Instance
insecure = record instance_one { name = text "two"; tls_insecure_skip_verify = true }

abbrev setting : Str → Bool
setting name = if name == text "one" then false else true
