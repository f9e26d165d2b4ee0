-- ===== src/Proxy/Routes.antt =====
-- internal/south/proxy.go: where a forwarded request goes.
use forgery.Base.{
  ℕ, Str, ◌≡◌, refl, ap, subst, sym, ◌∙◌, ◌⊎◌, inl, inr, true, Option, none, some, str_eq, lookup,
  Option-cases, Bool-cases,
}
use forgery.Config.{Instance}
use forgery.North.{InstanceEntry, Resolver, resolve, only_instance}
use forgery.World.{World, TokenEntry}
use forgery.Registry.{lookup_token}
use forgery.Registry.Laws.{IsAlive, lookup_token_lem}
use forgery.Proxy.Answers.{IsWeb}
use forgery.Proxy.{
  Target, forward, is_proxied_path, proxy_token, is_web, forward_to, owner_of, answer_for,
  serve_token, serve_http,
}

-- The token belongs to the instance: it has a live entry for it, or it has none and there is no other
-- instance.
abbrev pub Owns : Resolver → ℕ → World → Str → Str → Type 0
Owns resolver now w token name =
    ((e : TokenEntry) × (lookup token w.entries ≡ some e)
      × IsAlive now w e
      × (e.instance_name ≡ name))
    ⊎ (((lookup_token token now w).0 ≡ none) × (only_instance resolver ≡ some name))

module _ (decode : Str → Option Str) (parse : Str → Option Target) (resolver : Resolver) where
  forward_to-forward :
      (inst inst' : Instance) (o : Option Target) (target : Target)
      → forward_to decode parse resolver inst o ≡ forward inst' target
      → (inst ≡ inst') × (o ≡ some target) × IsWeb target
  unfolding forward_to
  forward_to-forward inst inst' none target h = cc
  forward_to-forward inst inst' (some t) target h =
      elim (Bool-cases (is_web decode parse resolver t)) [
        | inl web ↦
            (let g = rw web at h in
              let same : t ≡ target = cc in (cc, ap some same, subst IsWeb same web))
        | inr other ↦ (let g = rw other at h in cc)
      ]

  -- The request is for the web server at the URL of the instance that is resolved by the name.
  abbrev GoesTo : Str → InstanceEntry → Instance → Target → Type 0
  GoesTo name e inst target =
      (resolve name resolver ≡ some e)
      × (e.inst ≡ inst)
      × (parse inst.forgejo_url ≡ some target)
      × IsWeb target

  answer_for-forward :
      (o : Option Str) (inst : Instance) (target : Target)
      → answer_for decode parse resolver o ≡ forward inst target
      → (name : Str) × (e : InstanceEntry) × (o ≡ some name) × GoesTo name e inst target
  unfolding answer_for
  answer_for-forward none inst target h = cc
  answer_for-forward (some name) inst target h = elim (Option-cases (resolve name resolver)) [
    | inl missing ↦ (let g = rw (missing, answer_for) at h in cc)
    | inr (e, found) ↦
        let (same, parsed, web) =
          forward_to-forward e.inst inst (parse e.inst.forgejo_url) target
            (rw (found, answer_for) at h) in
        (name, e, refl, (found, same, ap (λ i. parse i.forgejo_url) (sym same) ∙ parsed, web))
  ]

  serve_token-forward :
      (now : ℕ) (token : Str) (w : World) (inst : Instance) (target : Target)
      → (serve_token decode parse resolver now (some token) w).0 ≡ forward inst target
      → (name : Str) × (e : InstanceEntry) × Owns resolver now w token name
        × GoesTo name e inst target
  unfolding serve_token
  serve_token-forward now token w inst target h =
      let (name, e, owner, there) =
        answer_for-forward (owner_of decode parse resolver (lookup_token token now w).0) inst target
          h in
      elim (Option-cases (lookup_token token now w).0) [
        | inl unknown ↦ (name, e, inr (unknown, rw unknown at owner), there)
        | inr (name', known) ↦ (
          name,
          e,
          inl ((lookup_token_lem token now w name).0.0 (known ∙ (rw known at owner))),
          there,
        )
      ]

  -- A request that is forwarded has a path that is proxied and carries a token, and it goes to the
  -- instance that a live entry of the token names or, where the token has none, to the only instance
  -- there is; its target is what this instance's own URL parses to, with the scheme http or https and a
  -- host.
  pub serve_http-forward :
      (now : ℕ) (path header : Str) (w : World) (inst : Instance) (target : Target)
      → (serve_http decode parse resolver now path header w).0 ≡ forward inst target
      → (is_proxied_path path ≡ true)
        × ((token : Str) × (name : Str) × (e : InstanceEntry) × (proxy_token decode header
              ≡ some token)
            × Owns resolver now w token name
            × GoesTo name e inst target)
  unfolding serve_http
  serve_http-forward now path header w inst target h = elim (Bool-cases (is_proxied_path path)) [
    | inr other ↦ (let g = rw (other, serve_http) at h in cc)
    | inl proxied ↦ elim (Option-cases (proxy_token decode header)) [
      | inl missing ↦ (let g = rw (proxied, missing, serve_token) at h in cc)
      | inr (token, found) ↦
          let (name, e, owns, there) =
            serve_token-forward now token w inst target (rw (proxied, found) at h) in
          (proxied, (token, name, e, found, owns, there))
    ]
  ]
