-- ===== src/Proxy/Later.antt =====
-- internal/south/proxy.go: a request leaves the tasks alone.
use forgery.Base.{ℕ, Str, Option, none, some, inl, inr, Bool-cases}
use forgery.North.{Resolver}
use forgery.World.{World}
use forgery.World.Later.{IsLater, IsLater-refl}
use forgery.Registry.Later.{lookup_token-IsLater}
use forgery.Proxy.{Target, is_proxied_path, proxy_token, serve_token, serve_http}

module _ (decode : Str → Option Str) (parse : Str → Option Target) (resolver : Resolver)
    (now : ℕ) where
  serve_token-IsLater :
      (token : Option Str) (w : World) → IsLater w (serve_token decode parse resolver now token w).1
  unfolding serve_token
  serve_token-IsLater none w = IsLater-refl w
  serve_token-IsLater (some token) w = lookup_token-IsLater token now w

  pub serve_http-IsLater :
      (path header : Str) (w : World)
      → IsLater w (serve_http decode parse resolver now path header w).1
  unfolding serve_http
  serve_http-IsLater path header w = elim (Bool-cases (is_proxied_path path)) [
    | inl proxied ↦ rw proxied (serve_token-IsLater (proxy_token decode header) w)
    | inr other ↦ rw other (IsLater-refl w)
  ]
