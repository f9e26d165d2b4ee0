-- ===== src/Proxy/Answers.antt =====
-- internal/south/proxy.go: when a request is forwarded.
use forgery.Base.{
  ℕ, Str, text, ◌≡◌, refl, true, ◌&&◌, ◌||◌, ◌==◌, not, is_empty, str_eq, some, Option,
}
use forgery.North.{InstanceEntry, Resolver, resolve}
use forgery.World.{World}
use forgery.Registry.{lookup_token}
use forgery.Proxy.{
  Target, forward, is_proxied_path, proxy_token, forward_to, answer_for, serve_token, serve_http,
}

-- a target that the proxy accepts
abbrev pub IsWeb : Target → Type 0
IsWeb t = ((t.scheme == text "http" || t.scheme == text "https") && not (is_empty t.host)) ≡ true

module _ (decode : Str → Option Str) (parse : Str → Option Target) (resolver : Resolver) where
  answer_for-known :
      (name : Str) (e : InstanceEntry) (target : Target)
      → resolve name resolver ≡ some e
      → parse e.inst.forgejo_url ≡ some target
      → IsWeb target
      → answer_for decode parse resolver (some name) ≡ forward e.inst target
  unfolding answer_for forward_to
  answer_for-known name e target found parsed web =
      rw (found, answer_for, parsed, forward_to, web) refl

  -- A proxied request whose token leads to an instance that is resolved is forwarded to it.
  pub serve_http-known :
      (now : ℕ) (path header token name : Str) (w : World) (e : InstanceEntry) (target : Target)
      → is_proxied_path path ≡ true
      → proxy_token decode header ≡ some token
      → (lookup_token token now w).0 ≡ some name
      → resolve name resolver ≡ some e
      → parse e.inst.forgejo_url ≡ some target
      → IsWeb target
      → (serve_http decode parse resolver now path header w).0 ≡ forward e.inst target
  unfolding serve_http serve_token
  serve_http-known now path header token name w e target proxied sent leads found parsed web =
      rw (proxied, sent, serve_token, leads) (answer_for-known name e target found parsed web)
