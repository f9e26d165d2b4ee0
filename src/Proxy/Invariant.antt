-- ===== src/Proxy/Invariant.antt =====
-- internal/south/proxy.go: a request keeps what ties the shared state together.
use forgery.Base.{ℕ, Str, Option, none, some, inl, inr, Bool-cases}
use forgery.North.{Resolver}
use forgery.World.{World}
use forgery.World.Routed.{Issued, IsRouted}
use forgery.Registry.Invariant.{lookup_token-IsRouted}
use forgery.Proxy.{Target, is_proxied_path, proxy_token, serve_token, serve_http}

module _ (decode : Str → Option Str) (parse : Str → Option Target) (resolver : Resolver)
    (issued : Issued) (now : ℕ) where
  serve_token-IsRouted :
      (token : Option Str) (w : World)
      → IsRouted issued w
      → IsRouted issued (serve_token decode parse resolver now token w).1
  unfolding serve_token
  serve_token-IsRouted none w v = v
  serve_token-IsRouted (some token) w v = lookup_token-IsRouted issued token now w v

  pub serve_http-IsRouted :
      (path header : Str) (w : World)
      → IsRouted issued w
      → IsRouted issued (serve_http decode parse resolver now path header w).1
  unfolding serve_http
  serve_http-IsRouted path header w v = elim (Bool-cases (is_proxied_path path)) [
    | inl proxied ↦ rw proxied (serve_token-IsRouted (proxy_token decode header) w v)
    | inr other ↦ rw other v
  ]
