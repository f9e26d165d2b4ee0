-- ===== src/Registry/Laws.antt =====
-- internal/south/proxy.go: which tokens lead to which instance, and when they stop doing so.
use forgery.Base.{
  ℕ, ◌+◌, ◌<◌, Str, ◌≡◌, refl, ap, ◌∙◌, sym, ◌⊎◌, subst, arith, ◌↔◌, false, ◌==◌, str_eq, none,
  some, List, [], ◌∷◌, Dict, lookup, insert, delete, lookup-insert, lookup-delete, In, inl, inr,
  ltb, eq_iff, if◌then◌else◌, Option-cases, Bool-cases, lt→ltb, ltb→lt,
}
use mathlib.Core.Bool.{false≢true}
use mathlib.Core.Option.{some-injective}
use forgery.Task.{Ref, is_terminal}
use forgery.Session.{Session}
use forgery.World.{World, TokenEntry}
use forgery.Registry.{
  put_tokens, entry_for, put_task_tokens, proxy_entry_ttl, runtime_task_tokens, lookup_alive,
  lookup_found, lookup_token,
}

lookup-put_tokens_other :
    (e : TokenEntry) (t : Str) (ts : List Str) (m : Dict Str TokenEntry)
    → lookup t m ≡ some e
    → lookup t (put_tokens e ts m) ≡ some e
unfolding put_tokens
lookup-put_tokens_other e t [] m h = h
lookup-put_tokens_other e t (u ∷ ts) m h =
    lookup-put_tokens_other e t ts (insert u e m) (ground (arith, lookup-insert u t e m))

lookup-put_tokens :
    (e : TokenEntry) (t : Str) (ts : List Str) (m : Dict Str TokenEntry)
    → In t ts
    → lookup t (put_tokens e ts m) ≡ some e
unfolding put_tokens
lookup-put_tokens e t [] m h = absurd h
lookup-put_tokens e t (u ∷ ts) m (inl same) =
    lookup-put_tokens_other e t ts (insert u e m)
      (ground (arith, lookup-insert u t e m, eq_iff u t))
lookup-put_tokens e t (u ∷ ts) m (inr later) = lookup-put_tokens e t ts (insert u e m) later

-- An entry is alive: it has not expired, its task goes on and its session exists.
pub record IsAlive (now : ℕ) (w : World) (e : TokenEntry) : Type 0 where
  pub fresh : now < e.expire_at
  pub goes_on : is_terminal (w.heap e.task).status ≡ false
  pub session : Session
  pub known : lookup e.session_token w.sessions ≡ some session

lookup_token_alive :
    (token : Str) (now : ℕ) (w : World) (e : TokenEntry)
    → lookup token w.entries ≡ some e
    → IsAlive now w e
    → lookup_token token now w ≡ (some e.instance_name, w)
unfolding lookup_token lookup_found lookup_alive
lookup_token_alive token now w e h alive =
    rw
      (
        h,
        lookup_token,
        lt→ltb now e.expire_at alive.fresh,
        alive.goes_on,
        lookup_alive,
        alive.known,
      )
      refl

-- A token that putTaskTokens registers for a task leads to the task's instance, as long as the entry
-- has not expired, the task is not terminal and the session it was registered for exists.
pub lookup_token-put_task_tokens :
    (r : Ref) (session_token : Str) (start now : ℕ) (w : World) (token : Str) (s : Session)
    → In token (runtime_task_tokens (w.heap r).task)
    → now < start + proxy_entry_ttl
    → is_terminal (w.heap r).status ≡ false
    → lookup session_token w.sessions ≡ some s
    → (lookup_token token now (put_task_tokens r session_token start w)).0
      ≡ some (w.heap r).instance_name
unfolding put_task_tokens
lookup_token-put_task_tokens r session_token start now w token s listed fresh goes_on known =
    ap (λ p. p.0)
      (lookup_token_alive token now (put_task_tokens r session_token start w)
        (entry_for w r session_token start)
        (lookup-put_tokens (entry_for w r session_token start) token
          (runtime_task_tokens (w.heap r).task) w.entries listed)
        (record { fresh = fresh; goes_on = goes_on; session = s; known = known }))

-- What a lookup does: it finds a live entry and changes nothing, or finds none and deletes the token.
module _ (token : Str) (now : ℕ) (w : World) where
  abbrev Found : TokenEntry → Type 0
  Found e =
      (lookup token w.entries ≡ some e)
      × IsAlive now w e
      × (lookup_token token now w ≡ (some e.instance_name, w))

  abbrev Evicted : Type 0
  Evicted =
      ((e : TokenEntry) → lookup token w.entries ≡ some e → ¬ IsAlive now w e)
      × (lookup_token token now w ≡ (none, record w { entries = delete token w.entries }))

  evicted :
      (e : TokenEntry)
      → lookup token w.entries ≡ some e
      → ¬ IsAlive now w e
      → lookup_token token now w ≡ (none, record w { entries = delete token w.entries })
      → Evicted
  evicted e found dead h = (
    λ e' found' alive.
        dead (subst (IsAlive now w) (some-injective e' e (sym found' ∙ found)) alive),
    h,
  )

  pub lookup_token_cases : ((e : TokenEntry) × Found e) ⊎ Evicted
  unfolding lookup_token lookup_found lookup_alive
  lookup_token_cases = elim (Option-cases (lookup token w.entries)) [
    | inl unknown ↦ inr (λ e h alive. cc, rw (unknown, lookup_token) refl)
    | inr (e, found) ↦ elim (Bool-cases (ltb now e.expire_at)) [
      | inr expired ↦ inr (
          evicted e found (λ alive. false≢true (sym expired ∙ lt→ltb now e.expire_at alive.fresh))
            (rw (found, lookup_token, expired) refl))
      | inl fresh ↦ elim (Bool-cases (is_terminal (w.heap e.task).status)) [
        | inl ended ↦ inr (
            evicted e found (λ alive. false≢true (sym alive.goes_on ∙ ended))
              (rw (found, lookup_token, fresh, ended) refl))
        | inr goes_on ↦ elim (Option-cases (lookup e.session_token w.sessions)) [
          | inl gone ↦ inr (
              evicted e found (λ alive. let k = alive.known in cc)
                (rw (found, lookup_token, fresh, goes_on, lookup_alive, gone) refl))
          | inr (s, known) ↦
              let alive : IsAlive now w e = record {
                fresh = ltb→lt now e.expire_at fresh;
                goes_on = goes_on;
                session = s;
                known = known;
              } in
              inl (e, (found, alive, lookup_token_alive token now w e found alive))
        ]
      ]
    ]
  ]

-- A lookup gives an instance exactly when the token has a live entry for it; otherwise it gives none,
-- and the token has no entry any more while all other tokens keep theirs.
pub lookup_token_lem :
    (token : Str) (now : ℕ) (w : World) (name : Str)
    → (((lookup_token token now w).0 ≡ some name) ↔ (
        (e : TokenEntry) × (lookup token w.entries ≡ some e)
        × IsAlive now w e
        × (e.instance_name ≡ name)))
      × ((lookup_token token now w).0 ≡ none
          → (t : Str)
          → lookup t (lookup_token token now w).1.entries
            ≡ (if token == t then none else lookup t w.entries))
lookup_token_lem token now w name = elim (lookup_token_cases token now w) [
  | inl (e, (found, alive, h)) ↦ rw h (
    (
      λ same. (e, found, alive, some-injective e.instance_name name same),
      λ (e', found', alive', same).
          ap some (ap (λ x. x.instance_name) (some-injective e e' (sym found ∙ found')) ∙ same),
    ),
    λ none_of. cc,
  )
  | inr (dead, h) ↦ rw h (
    (λ bad. cc, λ (e', found', alive', same). absurd (dead e' found' alive')),
    λ h' t. lookup-delete token t w.entries,
  )
]
